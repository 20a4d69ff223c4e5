-- ===== src/Tests.antt =====
-- Concrete inputs for the theorems.
pub mod Data
pub mod Files
pub mod Devices
pub mod Processes
pub mod Whole
pub mod Start
pub mod Typed
pub mod Lines
pub mod Refused
