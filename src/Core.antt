-- ===== src/Core.antt =====
-- crates/ub-core: errors, addresses and verbs.
pub mod Error
pub mod Bytes
pub mod Addr
pub mod Va
pub mod Verb
pub mod DeviceKind
pub mod StorageTier
pub mod AccessPattern
pub mod LatencyClass
pub mod CapacityClass
pub mod Perms
pub mod Buffer
pub mod Device
pub mod Mr
pub mod Verbs
pub mod Jetty
pub mod MrCache
