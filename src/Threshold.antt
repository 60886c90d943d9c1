-- ===== src/Threshold.antt =====
-- crates/wattwarden-platform/src/linux/threshold.rs: the battery charge ceiling, and the legacy
-- helpers of linux/sysfs.rs that it calls.
pub mod Nodes
pub mod Set
