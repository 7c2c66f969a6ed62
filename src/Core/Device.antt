-- ===== src/Core/Device.antt =====
-- crates/ub-core/src/device.rs: the devices behind the `Device` trait.
pub mod Backing
pub mod Memory
pub mod Npu
use unibus_toy.Base.{ℕ, ◌≡◌, refl, List}
use unibus_toy.Core.Error.{Result, ok, ◌>>=◌}
use unibus_toy.Core.DeviceKind
use unibus_toy.Core.DeviceKind.{DeviceKind}
use Memory.{MemoryDevice}
use Npu.{NpuDevice}

-- `dyn Device`
pub data Device : Type 0 where
  memory : MemoryDevice → Device
  npu : NpuDevice → Device

unfoldable pub backing : Device → Backing.Backing
backing (memory d) = d.backing
backing (npu d) = d.backing

unfoldable pub kind : Device → DeviceKind
kind (memory d) = DeviceKind.memory
kind (npu d) = DeviceKind.npu

unfoldable pub device_id : Device → ℕ
device_id (memory d) = 0
device_id (npu d) = d.device_id

unfoldable pub capacity : Device → ℕ
capacity d = (backing d).capacity

unfoldable pub with_backing : Backing.Backing → Device → Device
with_backing b (memory d) = memory (record d { backing = b })
with_backing b (npu d) = npu (record d { backing = b })

-- The methods that reach the bytes, dispatched.
unfoldable pub read : ℕ → ℕ → Device → Result (List ℕ)
read offset len d = Backing.read offset len (backing d)

unfoldable pub write : ℕ → List ℕ → Device → Result Device
write offset buf d = do b ← Backing.write offset buf (backing d); ok (with_backing b d)

unfoldable pub atomic_cas : ℕ → ℕ → ℕ → Device → Result (ℕ × Device)
atomic_cas offset expect new d = do
  (old, b) ← Backing.atomic_cas offset expect new (backing d)
  ok (old, with_backing b d)

unfoldable pub atomic_faa : ℕ → ℕ → Device → Result (ℕ × Device)
atomic_faa offset add d = do
  (old, b) ← Backing.atomic_faa offset add (backing d)
  ok (old, with_backing b d)

pub backing-with_backing : (b : Backing.Backing) (d : Device) → backing (with_backing b d) ≡ b
unfolding backing with_backing
backing-with_backing b (memory d) = refl
backing-with_backing b (npu d) = refl
