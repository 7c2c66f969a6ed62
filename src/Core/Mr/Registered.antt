-- ===== src/Core/Mr/Registered.antt =====
-- The table of memory regions (crates/ub-core/src/mr.rs): registrations, and any of its calls.
use unibus_toy.Base.{
  ℕ, ◌+◌, ◌-◌, ◌*◌, ◌/◌, ◌%◌, ◌^◌, ◌≤◌, ◌<◌, ◌≡◌, refl, ap, inl, inr, bit_and, Bool, false, some,
  List, [], ◌∷◌, arith, ◌==◌, Bool-cases, All, All-map,
}
use unibus_toy.Base.Fields.{bit_and_clear}
use unibus_toy.Base.Assoc.{number_key, insert, ◌≟◌, lookup-insert, insert-All}
use unibus_toy.Core.Addr
use unibus_toy.Core.Mr.{
  MrEntry, MrTable, DeviceRef, lookup_by_addr, alloc_offset, allocator_of, register_at, register,
  begin_revoke, deregister, finish_async, make_entry, lookup, new,
}
use unibus_toy.Core.Mr.Kept.{
  Below, IsTable, begin_revoke-IsTable, deregister-IsTable, finish_async-IsTable,
}
use unibus_toy.Core.Mr.Covering.{IsPlaced, IsCovered, Apart, AreApart, find_covering_lem}

-- A registration that does not run out of handles or of the offsets of its device.
pub record HasRoom (device : DeviceRef) (len : ℕ) (t : MrTable) : Type 0 where
  pub numbered : device.device_id < 2 ^ 16
  pub offsets : allocator_of device.device_id t.offset_allocators + 7 + len < 2 ^ 64
  pub handles : t.next_handle + 1 < 2 ^ 32

abbrev aligned : ℕ → ℕ
aligned next = (next + 7) / 8 * 8

alloc_offset_lem :
    (len next : ℕ)
    → next + 7 + len < 2 ^ 64
    → alloc_offset len 8 next ≡ (aligned next, aligned next + len)
unfolding alloc_offset
alloc_offset_lem len next h =
    let e : (next + 7) % 2 ^ 64 ≡ next + 7 = omega arith in
    let down : bit_and (next + 7) 0xffff_ffff_ffff_fff8 ≡ aligned next =
      bit_and_clear 61 3 (next + 7) (omega arith) in
    let whole : (aligned next + len) % 2 ^ 64 ≡ aligned next + len = omega arith in
    rw (e, down, whole)

insert-AreApart :
    (k : ℕ) (v : MrEntry) (m : List (ℕ × MrEntry))
    → AreApart m
    → All (λ (p : ℕ × MrEntry). p.0 < k) m
    → All (λ (p : ℕ × MrEntry). Apart p.1 v) m
    → AreApart (insert k v m)
unfolding insert
insert-AreApart k v [] apart fresh new = (tt, tt)
insert-AreApart k v ((j, w) ∷ m) apart fresh new =
    let other : (j ≟ k) ≡ false = ground (arith, fresh.0) in
    rw other (
      insert-All (λ (p : ℕ × MrEntry). Apart w p.1) k v m apart.0 new.0,
      insert-AreApart k v m apart.1 fresh.1 new.1,
    )

-- The calls that change the table; `finishes` is the end of `deregister_async`.
pub data MrCall : Type 0 where
  registers : DeviceRef → ℕ → ℕ → MrCall
  deregisters begins : ℕ → MrCall
  finishes : ℕ → Bool → MrCall

unfoldable pub step : MrCall → MrTable → MrTable
step (registers device len perms) t = (register device len perms t).1
step (deregisters handle) t = (deregister handle t).1
step (begins handle) t = (begin_revoke handle t).1
step (finishes handle drained) t = (finish_async handle drained t).1

abbrev pub Roomy : MrCall → MrTable → Type 0
Roomy (registers device len perms) t = HasRoom device len t
Roomy (deregisters handle) t = Unit
Roomy (begins handle) t = Unit
Roomy (finishes handle drained) t = Unit

-- The allocators after a registration do not fall behind.
allocator_grows :
    (d d' next : ℕ) (allocators : List (ℕ × ℕ))
    → allocator_of d allocators ≤ next
    → (allocator_of d' allocators ≤ allocator_of d' (insert d next allocators))
      × (allocator_of d (insert d next allocators) ≡ next)
unfolding allocator_of
allocator_grows d d' next allocators h = (
  ground (arith, lookup-insert d d' next allocators),
  ground (arith, lookup-insert d d next allocators),
)

pub register_at-IsTable :
    (device : DeviceRef) (len perms : ℕ) (t : MrTable)
    → IsTable t
    → HasRoom device len t
    → IsTable (register_at device len perms t).1
unfolding register_at make_entry
register_at-IsTable device len perms t v room =
    let next = allocator_of device.device_id t.offset_allocators in
    let alloc = alloc_offset_lem len next room.offsets in
    let handle : (t.next_handle + 1) % 2 ^ 32 ≡ t.next_handle + 1 = omega (arith, room.handles) in
    let end = aligned next + len in
    let e : MrEntry =
      make_entry t.next_handle (aligned next)
        (Addr.new t.pod_id t.node_id device.device_id (aligned next) 0) device len perms in
    let low : next ≤ end = omega arith in
    rw (alloc, handle)
      (record {
        pod = v.pod;
        node = v.node;
        placed =
            insert-All (λ (p : ℕ × MrEntry). IsPlaced t.pod_id t.node_id p.1) t.next_handle e
              t.entries v.placed
              (record {
                base = refl;
                device = room.numbered;
                inside = omega (arith, room.offsets);
              });
        apart = insert-AreApart t.next_handle e t.entries v.apart v.fresh (
            All-map _ _ t.entries
              (λ p b same.
                inl (omega (arith, b, ap (λ (d : ℕ). allocator_of d t.offset_allocators) same)))
              v.below);
        fresh =
            insert-All (λ (p : ℕ × MrEntry). p.0 < t.next_handle + 1) t.next_handle e t.entries
              (All-map _ _ t.entries (λ p b. omega arith) v.fresh) (omega arith);
        below =
            insert-All
              (λ (p : ℕ × MrEntry). Below (insert device.device_id end t.offset_allocators) p.1)
              t.next_handle e t.entries
              (All-map _ _ t.entries
                (λ p b. omega (
                  arith,
                  b,
                  (allocator_grows device.device_id p.1.device.device_id end t.offset_allocators
                      low).0,
                ))
                v.below)
              (omega (
                arith,
                (allocator_grows device.device_id device.device_id end t.offset_allocators low).1,
              ));
      })

pub new-IsTable : (pod node : ℕ) → pod < 2 ^ 16 → node < 2 ^ 16 → IsTable (new pod node)
unfolding new
new-IsTable pod node hp hn = record {
  pod = hp;
  node = hn;
  placed = tt;
  apart = tt;
  fresh = tt;
  below = tt;
}

register-IsTable :
    (device : DeviceRef) (len perms : ℕ) (t : MrTable)
    → IsTable t
    → HasRoom device len t
    → IsTable (register device len perms t).1
unfolding register
register-IsTable device len perms t v room = elim (Bool-cases (len == 0)) [
  | inl nothing ↦ rw (nothing, register) v
  | inr some_bytes ↦ rw (some_bytes, register) (register_at-IsTable device len perms t v room)
]

-- On a region table whose entries lie within what the allocators of their devices gave out,
-- carry the addresses of their places, and share no byte, any registration that finds a handle,
-- an offset and a device number of 16 bits, any deregistration and either half of an
-- asynchronous one leave such a table.
pub step-IsTable : (c : MrCall) (t : MrTable) → IsTable t → Roomy c t → IsTable (step c t)
unfolding step
step-IsTable (registers device len perms) t v room = register-IsTable device len perms t v room
step-IsTable (deregisters handle) t v room = deregister-IsTable handle t v
step-IsTable (begins handle) t v room = begin_revoke-IsTable handle t v
step-IsTable (finishes handle drained) t v room = finish_async-IsTable handle drained t v

-- On a table whose registered regions lie where their addresses say and share no byte, the
-- search for an address that a region covers finds that region, whatever the order of the table,
-- and the offset of the address within it.
pub lookup_by_addr_lem :
    (a h : ℕ) (e : MrEntry) (t : MrTable)
    → IsTable t
    → lookup h t ≡ some e
    → IsCovered t.node_id a e
    → lookup_by_addr a t ≡ some (e, Addr.offset a - e.base_offset)
unfolding lookup lookup_by_addr
lookup_by_addr_lem a h e t v found c =
    find_covering_lem t.pod_id t.node_id v.pod v.node a h e t.entries v.placed v.apart found c
