-- ===== src/Tests.antt =====
-- Examples on a small machine.
pub mod Laptop
pub mod Hardware
pub mod Policies
pub mod Programs
pub mod Lock
pub mod Dates
pub mod Console
pub mod Dashboard
pub mod Machine
pub mod Screens
pub mod Mac
