-- ===== src/Opener.antt =====
-- opener.go, with pickTunnelAddr of rules.go and the families of routing.go: from a host to a
-- connection.
pub mod Candidates
pub mod Policy
pub mod Order
pub mod Dialing
mod Examples
