-- ===== src/Transport/ReadCache.antt =====
-- crates/ub-transport/src/read_cache.rs: the cache of read responses. Instants and durations are
-- nanoseconds; each call of `Instant::now()` is an argument of the operation.
pub mod Bounded
use unibus_toy.Base.{
  ℕ, zero, suc, ◌+◌, ◌-◌, ◌*◌, ◌/◌, ◌%◌, ◌^◌, ◌≤◌, ◌<◌, bit_and, bit_or, min, max, ◌≡◌, refl, sym,
  ap, ◌∙◌, ◌≢◌, ◌↔◌, ◌⊎◌, inl, inr, Bool, true, false, not, ◌&&◌, ◌||◌, Option, none, some, List,
  [], ◌∷◌, ◌++◌, map, arith, ltb, leb, ◌==◌, if◌then◌else◌, ltb→lt, lt→ltb, leb→le, le→leb,
  lt→not-leb, ==_iff, ==-refl, Bool-cases, Option-cases, Bool-ext, length, get_or, set, take, drop,
  replicate, All, length-append, length-set, get_or-set_self, get_or-set_ne, All-set, All-append,
  drop-append, take-append, length-drop,
}
use unibus_toy.Base.Assoc.{pair_key, lookup, insert as map_insert, remove as map_remove, modify}

-- (source node, opaque)
abbrev pub CacheKey : Type 0
CacheKey = ℕ × ℕ

pub record CacheEntry : Type 0 where
  pub response : List ℕ
  pub inserted_at : ℕ
  pub order : ℕ

abbrev pub Entries : Type 0
Entries = List (CacheKey × CacheEntry)

pub record ReadResponseCache : Type 0 where
  pub entries : Entries
  pub capacity : ℕ
  pub ttl : ℕ
  pub next_order : ℕ

unfoldable pub new : ℕ → ℕ → ReadResponseCache
new capacity ttl = record { entries = []; capacity = capacity; ttl = ttl; next_order = 0 }

unfoldable pub default_cache : ReadResponseCache
unfolding new
default_cache = new 1024 5_000_000_000

-- `e.inserted_at.elapsed() > ttl`
unfoldable pub is_expired : ℕ → ℕ → CacheEntry → Bool
is_expired now ttl e = ltb ttl (now - e.inserted_at)

unfoldable pub hit : ReadResponseCache → CacheKey → CacheEntry → ReadResponseCache × Option (List ℕ)
hit c key e = (
  record c {
    entries = modify key (λ x. record x { order = c.next_order }) c.entries;
    next_order = (c.next_order + 1) % 2 ^ 64;
  },
  some e.response,
)

unfoldable pub miss : ReadResponseCache → CacheKey → ReadResponseCache × Option (List ℕ)
miss c key = (record c { entries = map_remove key c.entries }, none)

unfoldable pub get : ℕ → ReadResponseCache → CacheKey → ReadResponseCache × Option (List ℕ)
unfolding hit miss is_expired
get now c key = elim (lookup key c.entries) [
  | none ↦ miss c key
  | some e ↦ if is_expired now c.ttl e then miss c key else hit c key e
]

unfoldable pub retain_fresh : ℕ → ℕ → Entries → Entries
retain_fresh now ttl [] = []
retain_fresh now ttl ((k, e) ∷ m) =
    let rest = retain_fresh now ttl m in
    if leb (now - e.inserted_at) ttl then (k, e) ∷ rest else rest

unfoldable pub remove_expired : ℕ → ReadResponseCache → ReadResponseCache
unfolding retain_fresh
remove_expired now c = record c { entries = retain_fresh now c.ttl c.entries }

-- `min_by_key(|(_, e)| e.order)`: of several least ones the first.
unfoldable pub least_order : Entries → Option (CacheKey × ℕ)
least_order [] = none
least_order ((k, e) ∷ m) = elim (least_order m) [
  | none ↦ some (k, e.order)
  | some (j, n) ↦ if ltb n e.order then some (j, n) else some (k, e.order)
]

unfoldable pub evict_lru : Entries → Entries
unfolding least_order
evict_lru m = elim (least_order m) [ none ↦ m | some (k, _) ↦ map_remove k m ]

-- `now` is read when the expired entries go, and `later` when the entry is made.
unfoldable pub insert : ℕ → ℕ → ReadResponseCache → CacheKey → List ℕ → ReadResponseCache
unfolding remove_expired evict_lru
insert now later c key response =
    let fresh = (remove_expired now c).entries in
    let room = if leb c.capacity (length fresh) then evict_lru fresh else fresh in
    record c {
      entries =
          map_insert key (record { response = response; inserted_at = later; order = c.next_order })
            room;
      next_order = (c.next_order + 1) % 2 ^ 64;
    }

unfoldable pub clear : ReadResponseCache → ReadResponseCache
clear c = record c { entries = [] }
