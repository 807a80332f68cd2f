-- ===== src/Zns.antt =====
-- Zoned namespaces: zns_ftl.h, zns_ftl.c, zns_mgmt_send.c, zns_mgmt_recv.c, zns_read_write.c.
pub mod State
pub mod Manage
pub mod Accounts
pub mod Diagram
pub mod Layout
pub mod Place
pub mod Write
pub mod Zrwa
pub mod Read
pub mod Report
pub mod Command
pub mod Init
pub mod Onward
pub mod Kept
mod Tests
pub mod Runs
