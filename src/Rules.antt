-- ===== src/Rules.antt =====
-- rules.go: the rules of DIRECT_RULES and the route of a host.
pub mod Engine
pub mod Parsing
pub mod Decisions
mod Examples
