-- ===== src/Process.antt =====
-- The process supervision of crates/process/src/.
pub mod LogBuffer
pub mod State
pub mod Manager
pub mod Pid
