-- ===== src/Tunnel.antt =====
-- dialer.go and status.go: the SSH tunnel, its trust in the host key, and its monitor.
pub mod Status
pub mod Connect
pub mod Monitor
pub mod Lifecycle
pub mod Keepalive
pub mod Sockets
pub mod Dials
pub mod Tracked
mod Examples
mod DialTests
mod ProbeTests
