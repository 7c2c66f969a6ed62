-- ===== src/Tests.antt =====
-- Concrete runs, and every theorem that has premises at an input that meets them.
mod Core
mod Wire
mod Dedup
mod Floats
mod Session
mod ReadCache
mod Manager
mod Managed
mod Control
mod Devices
mod Dataplane
