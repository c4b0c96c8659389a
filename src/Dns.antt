-- ===== src/Dns.antt =====
-- dns.go: the tunnel resolvers, their pauses, the cache, and the two resolutions.
pub mod Cache
pub mod Upstream
pub mod Lookup
pub mod Resolve
pub mod Doh
pub mod Eviction
pub mod Bounds
pub mod Pauses
pub mod Caching
pub mod Service
pub mod Servers
pub mod Purging
mod Examples
