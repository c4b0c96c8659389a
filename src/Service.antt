-- ===== src/Service.antt =====
-- journal.go and notify.go: the journal and the service manager.
pub mod Journal
pub mod Reading
pub mod Logging
pub mod Sockets
pub mod Notify
pub mod Texts
pub mod Reporting
mod Examples
