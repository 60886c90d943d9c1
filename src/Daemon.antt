-- ===== src/Daemon.antt =====
-- crates/wattwarden-daemon/src/daemon.rs: the adaptive ladder and the opt-in settings.
pub mod Ladder
pub mod Runner
pub mod Pid
pub mod Health
pub mod Iso
