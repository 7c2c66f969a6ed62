-- ===== src/Managed/CachePool.antt =====
-- crates/ub-managed/src/cache_pool.rs: the local copies of remote regions, within a budget of bytes.

use unibus_toy.Base.{
  ℕ, zero, suc, ◌+◌, ◌-◌, ◌*◌, ◌/◌, ◌%◌, ◌^◌, ◌≤◌, ◌<◌, bit_and, bit_or, min, max, ◌≡◌, refl, sym,
  ap, ◌∙◌, ◌≢◌, ◌↔◌, ◌⊎◌, inl, inr, Bool, true, false, not, ◌&&◌, ◌||◌, Option, none, some, List,
  [], ◌∷◌, ◌++◌, map, arith, ltb, leb, ◌==◌, if◌then◌else◌, ltb→lt, lt→ltb, leb→le, le→leb,
  lt→not-leb, ==_iff, ==-refl, Bool-cases, Option-cases, Bool-ext, length, get_or, set, take, drop,
  replicate, All, length-append, length-set, get_or-set_self, get_or-set_ne, All-set, All-append,
  drop-append, take-append, length-drop,
}
pub mod Budget
pub mod Insert
use mathlib.Core.Option
use unibus_toy.Base.Assoc.{
  number_key, lookup as map_lookup, insert as map_insert, remove as map_remove, modify,
  contains_key,
}
use unibus_toy.Managed.SubAlloc.{SubAllocator, alloc, free}
use unibus_toy.Managed.Region
use unibus_toy.Managed.Region.{RegionTable}

pub record CacheEntry : Type 0 where
  pub region_id : ℕ
  pub pool_offset : ℕ
  pub len : ℕ
  pub epoch : ℕ
  pub last_access : ℕ

abbrev pub Entries : Type 0
Entries = List (ℕ × CacheEntry)

pub record CachePool : Type 0 where
  pub entries : Entries
  pub allocator : SubAllocator
  pub max_bytes : ℕ
  pub used_bytes : ℕ
  pub region_table : Option RegionTable

unfoldable pub new : SubAllocator → ℕ → CachePool
new allocator max_bytes = record {
  entries = [];
  allocator = allocator;
  max_bytes = max_bytes;
  used_bytes = 0;
  region_table = none;
}

unfoldable pub with_region_table : SubAllocator → ℕ → RegionTable → CachePool
unfolding new
with_region_table allocator max_bytes region_table = record (new allocator max_bytes) {
  region_table = some region_table;
}

unfoldable pub lookup : ℕ → ℕ → CachePool → CachePool × Option CacheEntry
lookup now region_id p = (
  record p { entries = modify region_id (λ e. record e { last_access = now }) p.entries },
  Option.map (λ (e : CacheEntry). record e { last_access = now }) (map_lookup region_id p.entries),
)

-- `min_by_key(|(_, e)| e.last_access)`: of several least ones the first.
unfoldable pub least_recent : Entries → Option (ℕ × CacheEntry)
least_recent [] = none
least_recent ((k, e) ∷ m) = elim (least_recent m) [
  | none ↦ some (k, e)
  | some (j, d) ↦ if ltb d.last_access e.last_access then some (j, d) else some (k, e)
]

-- `used_bytes.fetch_sub(entry.len)`, and the entry gone
unfoldable pub take_out : ℕ → CacheEntry → CachePool → CachePool
unfolding free
take_out key e p = record p {
  entries = map_remove key p.entries;
  used_bytes = (p.used_bytes + 2 ^ 64 - e.len) % 2 ^ 64;
  allocator = free e.pool_offset e.len p.allocator;
}

unfoldable pub remove : ℕ → CachePool → CachePool × Option CacheEntry
unfolding take_out
remove region_id p = elim (map_lookup region_id p.entries) [
  | none ↦ (p, none)
  | some e ↦ (take_out region_id e p, some e)
]

-- The region table learns that the copy is gone.
unfoldable pub notify_evicted : ℕ → Option RegionTable → Option RegionTable
notify_evicted region_id none = none
notify_evicted region_id (some t) = some (Region.set_state region_id Region.invalid t).0

unfoldable pub evict_lru : CachePool → CachePool × Bool
unfolding least_recent take_out notify_evicted
evict_lru p = elim (least_recent p.entries) [
  | none ↦ (p, false)
  | some (key, e) ↦
      (record (take_out key e p) { region_table = notify_evicted e.region_id p.region_table }, true)
]

-- The loop of `insert`, with fuel; whether it has made room.
unfoldable pub evict_until : ℕ → ℕ → CachePool → CachePool × Bool
evict_until zero len p = (p, false)
evict_until (suc fuel) len p =
    let r = evict_lru p in
    let rest = evict_until fuel len r.0 in
    if ltb p.max_bytes ((p.used_bytes + len) % 2 ^ 64)
    then (if r.1 then rest else (r.0, false))
    else (p, true)

pub data InsertResult : Type 0 where
  inserted : CacheEntry → InsertResult
  cannot_evict exhausted : InsertResult

-- The rest of `insert`, once there is room.
unfoldable pub place : ℕ → ℕ → ℕ → ℕ → CachePool → CachePool × InsertResult
place now region_id len epoch p = elim (alloc len p.allocator).1 [
  | none ↦ (record p { allocator = (alloc len p.allocator).0 }, exhausted)
  | some pool_offset ↦
      let e : CacheEntry = record {
        region_id = region_id;
        pool_offset = pool_offset;
        len = len;
        epoch = epoch;
        last_access = now;
      } in
      (
        record p {
          allocator = (alloc len p.allocator).0;
          used_bytes = (p.used_bytes + len) % 2 ^ 64;
          entries = map_insert region_id e p.entries;
        },
        inserted e,
      )
]

-- A round that goes on has one entry less, so as many rounds as entries and one are enough.
unfoldable pub insert : ℕ → ℕ → ℕ → ℕ → CachePool → CachePool × InsertResult
unfolding evict_until place
insert now region_id len epoch p =
    let r = evict_until (suc (length p.entries)) len p in
    if r.1 then place now region_id len epoch r.0 else (r.0, cannot_evict)

unfoldable pub update_epoch : ℕ → ℕ → ℕ → CachePool → CachePool × Bool
update_epoch now region_id epoch p = (
  record p {
    entries = modify region_id (λ e. record e { epoch = epoch; last_access = now }) p.entries;
  },
  contains_key region_id p.entries,
)

unfoldable pub contains : ℕ → CachePool → Bool
contains region_id p = contains_key region_id p.entries
