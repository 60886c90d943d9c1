-- ===== src/Cpu.antt =====
-- crates/wattwarden-platform/src/linux/cpu.rs: discovery of the CPUs, frequency limits, online
-- cores, turbo and energy preference.
pub mod Governor
pub mod Freq
pub mod Cores
pub mod Preference
