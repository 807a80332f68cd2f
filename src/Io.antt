-- ===== src/Io.antt =====
-- The dispatch of commands to I/O workers and their completion, io.c.
pub mod State
pub mod Queue
pub mod Device
pub mod Enqueue
pub mod Transfer
pub mod Worker
pub mod Dispatch
mod Tests
