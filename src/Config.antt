-- ===== src/Config.antt =====
-- main.go and utils.go: the settings of the process and their checks.
pub mod Values
pub mod Lists
pub mod Load
pub mod Checks
pub mod Sound
pub mod Window
pub mod Settings
mod Examples
