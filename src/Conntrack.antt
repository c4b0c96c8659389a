-- ===== src/Conntrack.antt =====
-- conntrack.go: the tracker of the tunneled connections, one module for each part of it.
pub mod Records
pub mod Ring
pub mod RingIndex
pub mod RingView
pub mod Tracker
pub mod Invariant
pub mod Lifecycle
pub mod History
pub mod Listing
pub mod Pages
pub mod Conn
pub mod Relay
mod Examples
