-- ===== src/Tui.antt =====
-- crates/wattwarden-tui: the interactive dashboard.
pub mod Menu
pub mod App
pub mod Adjust
pub mod Arrows
pub mod Changes
pub mod Keys
pub mod Layout
pub mod Line
pub mod Screen
pub mod Rows
pub mod Plot
pub mod Draw
