-- ===== src/Socks.antt =====
-- socks5.go: the SOCKS5 server, the access log of both proxies, and the drain at shutdown.
pub mod Requests
pub mod Answers
pub mod LogConn
pub mod AccessLog
pub mod Drain
pub mod Serving
pub mod Relays
pub mod Counting
pub mod Draining
pub mod Collisions
pub mod Lines
pub mod LineCounts
pub mod Linked
mod Examples
mod ServingTests
mod LineTests
