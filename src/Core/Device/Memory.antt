-- ===== src/Core/Device/Memory.antt =====
-- crates/ub-core/src/device/memory.rs
use unibus_toy.Base.{ℕ, replicate}
use unibus_toy.Core.Device.Backing.{Backing}

pub record MemoryDevice : Type 0 where
  pub backing : Backing

unfoldable pub new : ℕ → MemoryDevice
new size = record { backing = record { bytes = replicate size 0; capacity = size } }
