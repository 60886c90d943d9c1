-- ===== src/Sysfs.antt =====
-- crates/wattwarden-platform/src/linux/sysfs.rs and cmd.rs: every read and write of the Linux
-- backend. The kernel, the tools that are run and the rest of the machine are the parameter `Os`.
mod Nodes
mod Machine
pub mod Issues
pub mod Stable
pub use Nodes.*
unfoldable pub use Machine.*
