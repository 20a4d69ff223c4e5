-- ===== src/System.antt =====
-- The kernel as a whole: what holds between two interrupts or system calls, and that every one of them
-- keeps it.
pub mod Sound
pub mod Files
pub mod Programs
pub mod Ended
pub mod Halt
pub mod Return
pub mod Timer
pub mod Devices
pub mod Write
pub mod Read
pub mod Runs
pub mod Isolation
pub mod Calls
pub mod Descriptors
pub mod Strict
pub mod ErrorTests
