-- ===== src/Core/Device/Npu.antt =====
-- crates/ub-core/src/device/npu.rs
use unibus_toy.Base.{ℕ, ◌+◌, ◌-◌, ◌*◌, ◌%◌, ◌^◌, bit_and, ltb, if◌then◌else◌, replicate}
use unibus_toy.Core.Error.{Result, ok, err, no_resources}
use unibus_toy.Core.Device.Backing.{Backing}

pub record NpuDevice : Type 0 where
  pub device_id : ℕ
  pub backing : Backing
  pub alloc_cursor : ℕ

unfoldable pub new : ℕ → ℕ → NpuDevice
new device_id mem_size_mib =
    let size = mem_size_mib * 1024 * 1024 % 2 ^ 64 in
    record {
      device_id = device_id;
      backing = record { bytes = replicate size 0; capacity = size };
      alloc_cursor = 0;
    }

-- `(cursor + align - 1) & !(align - 1)` on 64 bits, for an `align` of one and more
unfoldable pub align_up : ℕ → ℕ → ℕ
align_up cursor align = bit_and ((cursor + (align - 1)) % 2 ^ 64) (2 ^ 64 - 1 - (align - 1))

unfoldable pub alloc : ℕ → ℕ → NpuDevice → Result (ℕ × ℕ) × NpuDevice
alloc len align d =
    let aligned = align_up d.alloc_cursor align in
    let end = (aligned + len) % 2 ^ 64 in
    if ltb d.backing.capacity end
    then (err no_resources, d)
    else (ok (aligned, len), record d { alloc_cursor = end })
