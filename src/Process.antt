-- ===== src/Process.antt =====
-- main.go: the process, from its start to its shutdown.
pub mod Startup
pub mod Started
pub mod Starting
pub mod Shutdown
mod Examples
