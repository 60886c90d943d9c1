-- ===== src/Core.antt =====
-- crates/wattwarden-core: errors, configuration, the interfaces of the hardware and the calibration.
pub mod Error
pub mod Traits
pub mod Config
pub mod Float
pub mod BatteryHealth
pub mod Calibrate
pub mod Typestate
