-- ===== src/Storage.antt =====
-- utils.go: the atomic write of a file.
pub mod Write
pub mod Atomic
pub mod Keys
pub mod KeyPairs
mod Examples
