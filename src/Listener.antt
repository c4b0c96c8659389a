-- ===== src/Listener.antt =====
-- listener.go: the accept loops' listeners and the connection limit.
pub mod Limit
pub mod Backoff
pub mod Closing
mod Examples
