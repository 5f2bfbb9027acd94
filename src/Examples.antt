-- ===== src/Examples.antt =====
-- A small robot, and runs of the definitions on it.
pub mod Damages
pub mod Robot
pub mod Drives
pub mod Checksums
pub mod Arrivals
pub mod Menus
pub mod Mechanisms
pub mod Control
pub mod Remote
pub mod Commands
pub mod Messages
pub mod Clocks
pub mod Errors
pub mod Defaults
