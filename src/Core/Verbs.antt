-- ===== src/Core/Verbs.antt =====
-- crates/ub-core/src/verbs.rs: the verbs on the node's own memory. The devices are a heap that the
-- pointers of the region table reach into.
pub mod Regions
use unibus_toy.Base.{ℕ, ◌+◌, ◌%◌, ◌^◌, Bool, List, ◌==◌, if◌then◌else◌}
use unibus_toy.Core.Error.{Result, ok, guard, addr_invalid, alignment, ◌>>=◌, ◌>>◌}
use unibus_toy.Core.Addr
use unibus_toy.Core.Device
use unibus_toy.Core.Device.{Device}
use unibus_toy.Core.Mr.{MrTable, lookup_by_addr, check_perms}
use unibus_toy.Core.Verb
use unibus_toy.Wire.Codec.{ok_or}

abbrev pub Devices : Type 0
Devices = ℕ → Device

unfoldable pub update : ℕ → Device → Devices → Devices
update p d devices q = if p == q then d else devices q

unfoldable pub ub_read_sync : MrTable → ℕ → ℕ → Devices → Result (List ℕ)
ub_read_sync t addr len devices = do
  (entry, offset_in_mr) ← ok_or (lookup_by_addr addr t) addr_invalid
  check_perms Verb.read_req entry
  let device_offset = (entry.base_offset + offset_in_mr) % 2 ^ 64
  Device.read device_offset len (devices entry.device.pointer)

unfoldable pub ub_write_sync : MrTable → ℕ → List ℕ → Devices → Result Devices
ub_write_sync t addr buf devices = do
  (entry, offset_in_mr) ← ok_or (lookup_by_addr addr t) addr_invalid
  check_perms Verb.write entry
  let device_offset = (entry.base_offset + offset_in_mr) % 2 ^ 64
  device ← Device.write device_offset buf (devices entry.device.pointer)
  ok (update entry.device.pointer device devices)

unfoldable pub ub_atomic_cas_sync : MrTable → ℕ → ℕ → ℕ → Devices → Result (ℕ × Devices)
ub_atomic_cas_sync t addr expect new devices = do
  guard (Addr.offset addr % 8 == 0) alignment
  (entry, offset_in_mr) ← ok_or (lookup_by_addr addr t) addr_invalid
  check_perms Verb.atomic_cas entry
  let device_offset = (entry.base_offset + offset_in_mr) % 2 ^ 64
  (old, device) ← Device.atomic_cas device_offset expect new (devices entry.device.pointer)
  ok (old, update entry.device.pointer device devices)

unfoldable pub ub_atomic_faa_sync : MrTable → ℕ → ℕ → Devices → Result (ℕ × Devices)
ub_atomic_faa_sync t addr add devices = do
  guard (Addr.offset addr % 8 == 0) alignment
  (entry, offset_in_mr) ← ok_or (lookup_by_addr addr t) addr_invalid
  check_perms Verb.atomic_faa entry
  let device_offset = (entry.base_offset + offset_in_mr) % 2 ^ 64
  (old, device) ← Device.atomic_faa device_offset add (devices entry.device.pointer)
  ok (old, update entry.device.pointer device devices)
