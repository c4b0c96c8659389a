-- ===== src/Web.antt =====
-- health.go and webui.go: the Web UI and its API.
pub mod Hosts
pub mod Access
pub mod Connections
pub mod Pages
pub mod Status
pub mod Totals
pub mod AnyOrder
pub mod Routes
pub mod Guarding
pub mod Lifetime
mod Examples
mod GuardTests
