-- ===== src/Cli.antt =====
-- crates/wattwarden-cli: the command line, its dispatcher and what it needs of the program.
pub mod Runtime
pub mod Report
pub mod Behaviour
pub mod Commands
pub mod Dispatch
pub mod Real
