-- ===== src/Net.antt =====
-- IP addresses as package net/netip has them, and the program's own classification of them
-- (rules.go, opener.go, routing.go).
pub mod Addr
pub mod Private
mod Examples
