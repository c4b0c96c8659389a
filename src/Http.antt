-- ===== src/Http.antt =====
-- httpproxy.go: the HTTP proxy.
pub mod Serving
pub mod Message
pub mod Forward
pub mod Rewrite
pub mod Framing
pub mod Phases
pub mod Watched
pub mod Handling
pub mod Guard
pub mod Idle
mod Examples
