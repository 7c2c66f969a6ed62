-- ===== src/Transport.antt =====
-- crates/ub-transport: the reliable transport.
pub mod Dedup
pub mod ReadCache
pub mod Session
pub mod Manager
