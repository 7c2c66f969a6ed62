-- ===== src/Core/Verbs/Regions.antt =====
-- The verbs of crates/ub-core/src/verbs.rs on registered regions.
use unibus_toy.Base.{
  ℕ, ◌+◌, ◌-◌, ◌%◌, ◌^◌, ◌<◌, ◌≡◌, sym, inl, inr, true, some, List, arith, if◌then◌else◌,
  Bool-cases, ==-refl, length, take, drop,
}
use unibus_toy.Core.Error.{ok, err, addr_invalid, perm_denied, Result-cases}
use unibus_toy.Core.Addr
use unibus_toy.Core.Device
use unibus_toy.Core.Device.{Device, backing, with_backing, backing-with_backing}
use unibus_toy.Core.Device.Backing
use unibus_toy.Core.Device.Backing.Access.{IsBacking, IsLen, fits, read_lem, write-Holds}
use unibus_toy.Core.Mr.{MrEntry, MrTable, lookup, check_perms, required}
use unibus_toy.Core.Mr.Covering.{IsCovered}
use unibus_toy.Core.Mr.Kept.{IsTable}
use unibus_toy.Core.Mr.Registered.{lookup_by_addr_lem}
use unibus_toy.Core.Perms.{contains, perm_read, perm_write}
use unibus_toy.Core.Verbs.{Devices, update, ub_read_sync, ub_write_sync}

-- An address that a registered region covers.
pub record IsTarget (t : MrTable) (devices : Devices) (a h : ℕ) (e : MrEntry) : Type 0 where
  pub table : IsTable t
  pub registered : lookup h t ≡ some e
  pub covered : IsCovered t.node_id a e
  pub small : Addr.offset a < 2 ^ 64
  pub device : IsBacking (backing (devices e.device.pointer))

device_offset :
    (t : MrTable) (devices : Devices) (a h : ℕ) (e : MrEntry)
    → IsTarget t devices a h e
    → (e.base_offset + (Addr.offset a - e.base_offset)) % 2 ^ 64 ≡ Addr.offset a
device_offset t devices a h e v = omega (arith, v.small, v.covered.above)

-- At an address of 64-bit offset that a registered region of a valid table covers, on a device
-- whose bytes fill its capacity, a local read is refused without the permission to read, reports
-- a bad address when the range passes the end of the device, and else returns the bytes of the
-- device there; how long the region is plays no part.
pub ub_read_sync_lem :
    (t : MrTable) (devices : Devices) (a h len : ℕ) (e : MrEntry)
    → IsTarget t devices a h e
    → IsLen len
    → let d = backing (devices e.device.pointer) in
      ub_read_sync t a len devices ≡ (
        if contains e.perms perm_read
        then (if fits (Addr.offset a) len d
            then ok (take len (drop (Addr.offset a) d.bytes))
            else err addr_invalid)
        else err perm_denied)
unfolding ub_read_sync check_perms required Device.read
ub_read_sync_lem t devices a h len e v hl =
    let found = lookup_by_addr_lem a h e t v.table v.registered v.covered in
    let offset = device_offset t devices a h e v in
    let whole = read_lem (Addr.offset a) len (backing (devices e.device.pointer)) v.device hl in
    rw (found, offset, whole)
      (elim (Bool-cases (contains e.perms perm_read)) [
        | inl allowed ↦ rw allowed
        | inr refused ↦ rw refused
      ])

-- A write that succeeded, as the write of the device behind the region.
wrote_device :
    (t : MrTable) (devices devices' : Devices) (a h : ℕ) (buf : List ℕ) (e : MrEntry)
    → IsTarget t devices a h e
    → ub_write_sync t a buf devices ≡ ok devices'
    → (b : Backing.Backing) × (Backing.write
          (Addr.offset a)
          buf
          (backing (devices e.device.pointer))
        ≡ ok b)
      × (devices' ≡ update e.device.pointer (with_backing b (devices e.device.pointer)) devices)
unfolding ub_write_sync check_perms required Device.write
wrote_device t devices devices' a h buf e v wrote =
    let found = lookup_by_addr_lem a h e t v.table v.registered v.covered in
    let run = rw (found, device_offset t devices a h e v) at wrote in
    elim (Bool-cases (contains e.perms perm_write)) [
      | inr refused ↦ cc (rw refused at run)
      | inl allowed ↦
          elim (Result-cases
            (Backing.write (Addr.offset a) buf (backing (devices e.device.pointer)))) [
              | inl (b, done) ↦ (b, done, sym (cc (rw (allowed, done) at run)))
              | inr (inl (x, failed)) ↦ cc (rw (allowed, failed) at run)
              | inr (inr failed) ↦ cc (rw (allowed, failed) at run)
            ]
    ]

update_self : (p : ℕ) (d : Device) (devices : Devices) → update p d devices p ≡ d
unfolding update
update_self p d devices = rw (==-refl p)

-- On a valid region table, at an address of 64-bit offset that a registered and readable region
-- covers, on a device whose bytes fill its capacity, a local write of a buffer that succeeds is
-- read back: a local read of that many bytes there returns the buffer.
pub ub_write-ub_read :
    (t : MrTable) (devices devices' : Devices) (a h : ℕ) (buf : List ℕ) (e : MrEntry)
    → IsTarget t devices a h e
    → IsLen (length buf)
    → contains e.perms perm_read ≡ true
    → ub_write_sync t a buf devices ≡ ok devices'
    → ub_read_sync t a (length buf) devices' ≡ ok buf
unfolding ub_read_sync check_perms required Device.read
ub_write-ub_read t devices devices' a h buf e v hl readable wrote =
    let found = lookup_by_addr_lem a h e t v.table v.registered v.covered in
    let (b, done, after) = wrote_device t devices devices' a h buf e v wrote in
    let p = e.device.pointer in
    let holds = write-Holds (Addr.offset a) buf (backing (devices p)) b v.device hl done in
    let there : backing (devices' p) ≡ b =
      rw after (rw update_self (backing-with_backing b (devices p))) in
    rw (found, readable, device_offset t devices a h e v, there) holds.back
