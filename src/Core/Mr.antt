-- ===== src/Core/Mr.antt =====
-- crates/ub-core/src/mr.rs: the memory regions of a node and the cache of the other nodes'.
-- `Arc<dyn Device>` is a pointer together with what the device answers of itself for good, and the
-- channel to the control plane is the list of the events sent on it. An entry counts its references
-- in 64 bits, two's complement.
pub mod Covering
pub mod Kept
pub mod Registered
use unibus_toy.Base.{
  ℕ, ◌+◌, ◌-◌, ◌%◌, ◌^◌, bit_and, Bool, true, false, not, ◌&&◌, Option, none, some, List, [], ◌∷◌,
  ◌++◌, ltb, leb, ◌==◌, if◌then◌else◌, map,
}
use unibus_toy.Base.Assoc.{
  number_key, pair_key, lookup as map_lookup, insert as map_insert, remove as map_remove, modify,
}
use unibus_toy.Core.Error.{
  Result, ok, err, panicked, guard, addr_invalid, perm_denied, timeout, internal, already_revoked,
  ◌>>=◌, ◌>>◌,
}
use unibus_toy.Core.Addr
use unibus_toy.Core.DeviceKind.{DeviceKind}
use unibus_toy.Core.Perms.{contains, perm_read, perm_write, perm_atomic}
use unibus_toy.Core.Verb.{
  Verb, read_req, read_resp, write, atomic_cas, atomic_faa, send, write_imm, atomic_cas_resp,
  atomic_faa_resp,
}

pub data MrState : Type 0 where
  active revoking released : MrState

unfoldable pub is_active : MrState → Bool
is_active active = true
is_active revoking = false
is_active released = false

pub record DeviceRef : Type 0 where
  pub pointer : ℕ
  pub device_id : ℕ
  pub kind : DeviceKind

pub record MrEntry : Type 0 where
  pub handle : ℕ
  pub device : DeviceRef
  pub base_offset : ℕ
  pub len : ℕ
  pub perms : ℕ
  pub base_ub_addr : ℕ
  pub state : MrState
  pub inflight_refs : ℕ

unfoldable pub try_inflight_inc : MrEntry → Bool × MrEntry
try_inflight_inc e =
    if is_active e.state
    then (true, record e { inflight_refs = (e.inflight_refs + 1) % 2 ^ 64 })
    else (false, e)

-- The flag says whether the waiters were notified.
unfoldable pub inflight_dec : MrEntry → Bool × MrEntry
inflight_dec e =
    (e.inflight_refs == 1, record e { inflight_refs = (e.inflight_refs + (2 ^ 64 - 1)) % 2 ^ 64 })

unfoldable pub required : Verb → ℕ
required read_req = perm_read
required read_resp = perm_read
required write = perm_write
required write_imm = perm_write
required atomic_cas = perm_atomic
required atomic_faa = perm_atomic
required atomic_cas_resp = perm_atomic
required atomic_faa_resp = perm_atomic
required send = perm_write

unfoldable pub check_perms : Verb → MrEntry → Result (Unit {0})
check_perms verb e = guard (contains e.perms (required verb)) perm_denied

pub record MrPublishInfo : Type 0 where
  pub mr_handle : ℕ
  pub owner_node : ℕ
  pub base_ub_addr : ℕ
  pub len : ℕ
  pub perms : ℕ
  pub device_kind : DeviceKind

pub data MrPublishEvent : Type 0 where
  publish : MrPublishInfo → MrPublishEvent
  revoke : ℕ → ℕ → MrPublishEvent

-- `OffsetAllocator::alloc`: the offset, and the allocator's `next` after it; `align` is a power of
-- two.
unfoldable pub alloc_offset : ℕ → ℕ → ℕ → ℕ × ℕ
alloc_offset len align next =
    let aligned = bit_and ((next + (align - 1)) % 2 ^ 64) (2 ^ 64 - 1 - (align - 1)) in
    (aligned, (aligned + len) % 2 ^ 64)

pub record MrTable : Type 0 where
  pub entries : List (ℕ × MrEntry)
  pub next_handle : ℕ
  pub offset_allocators : List (ℕ × ℕ)
  pub pod_id : ℕ
  pub node_id : ℕ
  pub publish_tx : Option (List MrPublishEvent)

unfoldable pub new : ℕ → ℕ → MrTable
new pod_id node_id = record {
  entries = [];
  next_handle = 1;
  offset_allocators = (0, 0) ∷ [];
  pod_id = pod_id;
  node_id = node_id;
  publish_tx = none;
}

unfoldable pub new_with_channel : ℕ → ℕ → MrTable
new_with_channel pod_id node_id = record (new pod_id node_id) { publish_tx = some [] }

-- `if let Some(ref tx) = self.publish_tx { let _ = tx.send(event); }`
unfoldable pub emit : MrPublishEvent → Option (List MrPublishEvent) → Option (List MrPublishEvent)
emit event none = none
emit event (some sent) = some (sent ++ (event ∷ []))

-- `entry(device_id).or_insert_with(OffsetAllocator::new)`
unfoldable pub allocator_of : ℕ → List (ℕ × ℕ) → ℕ
allocator_of device_id allocators = elim (map_lookup device_id allocators) [
  | none ↦ 0
  | some next ↦ next
]

unfoldable pub make_entry : ℕ → ℕ → ℕ → DeviceRef → ℕ → ℕ → MrEntry
make_entry handle offset base_ub_addr device len perms = record {
  handle = handle;
  device = device;
  base_offset = offset;
  len = len;
  perms = perms;
  base_ub_addr = base_ub_addr;
  state = active;
  inflight_refs = 0;
}

-- The body of `register` behind its guard.
unfoldable pub register_at : DeviceRef → ℕ → ℕ → MrTable → (ℕ × ℕ) × MrTable
register_at device len perms t =
    let alloc = alloc_offset len 8 (allocator_of device.device_id t.offset_allocators) in
    let handle = t.next_handle in
    let addr = Addr.new t.pod_id t.node_id device.device_id alloc.0 0 in
    let info : MrPublishInfo = record {
      mr_handle = handle;
      owner_node = t.node_id;
      base_ub_addr = addr;
      len = len;
      perms = perms;
      device_kind = device.kind;
    } in
    (
      (addr, handle),
      record t {
        entries = map_insert handle (make_entry handle alloc.0 addr device len perms) t.entries;
        next_handle = (handle + 1) % 2 ^ 32;
        offset_allocators = map_insert device.device_id alloc.1 t.offset_allocators;
        publish_tx = emit (publish info) t.publish_tx;
      },
    )

unfoldable pub register : DeviceRef → ℕ → ℕ → MrTable → Result (ℕ × ℕ) × MrTable
register device len perms t =
    if len == 0
    then (err addr_invalid, t)
    else (ok (register_at device len perms t).0, (register_at device len perms t).1)

-- What `deregister` and `deregister_async` begin with: Active becomes Revoking, and the revocation
-- is sent out.
unfoldable pub begin_revoke : ℕ → MrTable → Result (Unit {0}) × MrTable
begin_revoke handle t = elim (map_lookup handle t.entries) [
  | none ↦ (err addr_invalid, t)
  | some e ↦
      if is_active e.state
      then (
        ok tt,
        record t {
          entries = modify handle (λ (e : MrEntry). record e { state = revoking }) t.entries;
          publish_tx = emit (revoke t.node_id handle) t.publish_tx;
        },
      )
      else (err (internal already_revoked), t)
]

unfoldable pub remove_entry : ℕ → MrTable → MrTable
remove_entry handle t = record t { entries = map_remove handle t.entries }

unfoldable pub deregister : ℕ → MrTable → Result (Unit {0}) × MrTable
deregister handle t =
    let r = begin_revoke handle t in
    elim r.0 [ ok u ↦ (ok tt, remove_entry handle r.1) | err e ↦ (err e, r.1) | panicked ↦ r ]

-- `inflight_refs.load() > 0`, as a signed number
unfoldable pub must_drain : MrEntry → Bool
must_drain e = not (e.inflight_refs == 0) && ltb e.inflight_refs (2 ^ 63)

-- `deregister_async` behind its beginning: `drained` says that the wait ended before the timeout.
unfoldable pub finish_async : ℕ → Bool → MrTable → Result (Unit {0}) × MrTable
finish_async handle drained t = (
  if drained then ok tt else err timeout,
  remove_entry handle (record t {
    entries = modify handle (λ (e : MrEntry). record e { state = released }) t.entries;
  }),
)

unfoldable pub lookup : ℕ → MrTable → Option MrEntry
lookup handle t = map_lookup handle t.entries

-- The test of `lookup_by_addr`, on the base address and the length of an entry.
unfoldable pub covers : ℕ → ℕ → ℕ → Bool
covers addr base len =
    let mr_start = Addr.offset base in
    let mr_end = (mr_start + len) % 2 ^ 64 in
    let req_offset = Addr.offset addr in
    Addr.node_id base == Addr.node_id addr
    && (Addr.device_id base == Addr.device_id addr
        && (leb mr_start req_offset && ltb req_offset mr_end))

-- The loop of `lookup_by_addr`
unfoldable pub find_covering : ℕ → List (ℕ × MrEntry) → Option (MrEntry × ℕ)
find_covering addr [] = none
find_covering addr ((h, e) ∷ es) =
    let rest = find_covering addr es in
    if covers addr e.base_ub_addr e.len
    then some (e, Addr.offset addr - Addr.offset e.base_ub_addr)
    else rest

unfoldable pub lookup_by_addr : ℕ → MrTable → Option (MrEntry × ℕ)
lookup_by_addr addr t = find_covering addr t.entries

unfoldable pub list : MrTable → List MrEntry
list t = map (λ (p : ℕ × MrEntry). p.1) t.entries
