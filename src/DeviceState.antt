-- ===== src/DeviceState.antt =====
-- pkg/devicestate: the devices that the node offers, and the life of a prepared claim.
pub mod Config
pub mod Names
pub mod Unprepare
pub mod Policy
pub mod Prepare
