-- ===== src/Managed.antt =====
-- crates/ub-managed: the managed memory layer.
pub mod Coherence
pub mod SubAlloc
pub mod Region
pub mod CachePool
