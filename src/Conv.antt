-- ===== src/Conv.antt =====
-- The page-mapping translation layer: conv_ftl.h and conv_ftl.c.
pub mod State
pub mod Lines
pub mod Pages
pub mod Gc
pub mod Namespace
pub mod Read
pub mod Write
pub mod Command
pub mod Mapping
mod Tests
