-- ===== src/Transport/ReadCache/Bounded.antt =====
-- The size of the read response cache (crates/ub-transport/src/read_cache.rs), and what an
-- insertion leaves in it.
use unibus_toy.Base.{
  ℕ, ◌+◌, ◌-◌, ◌≤◌, ◌<◌, ◌≡◌, refl, ap, ◌∙◌, ◌≢◌, inl, inr, false, none, some, List, [], ◌∷◌, arith,
  ltb, leb, if◌then◌else◌, Bool-cases, Option-cases, length,
}
use unibus_toy.Base.Assoc.{
  pair_key, same_pair_iff, lookup, insert as map_insert, remove as map_remove, lookup-insert,
  length-remove-le, length-insert-le, same_refl, ◌≟◌,
}
use unibus_toy.Transport.ReadCache.{
  CacheKey, CacheEntry, Entries, ReadResponseCache, get, retain_fresh, remove_expired, least_order,
  evict_lru, insert,
}

not_same : (a b : CacheKey) → a ≢ b → (a ≟ b) ≡ false
not_same a b h = ground (arith, same_pair_iff a b)

length-retain_fresh-le : (now ttl : ℕ) (m : Entries) → length (retain_fresh now ttl m) ≤ length m
unfolding retain_fresh
length-retain_fresh-le now ttl [] = omega arith
length-retain_fresh-le now ttl ((k, e) ∷ m) = ground (arith, length-retain_fresh-le now ttl m)

least_order-none : (m : Entries) → least_order m ≡ none → m ≡ []
unfolding least_order
least_order-none [] h = refl
least_order-none ((k, e) ∷ m) h = ground arith

-- The key that `least_order` names is there, so that removing it makes room.
length-evict :
    (m : Entries) (k : CacheKey) (n : ℕ)
    → least_order m ≡ some (k, n)
    → length (map_remove k m) + 1 ≤ length m
unfolding least_order map_remove
length-evict [] k n h = cc
length-evict ((j, e) ∷ m) k n h =
    ground (arith, length-remove-le k m, length-evict m k n, same_pair_iff j k)

length-evict_lru : (m : Entries) → 0 < length m → length (evict_lru m) + 1 ≤ length m
unfolding evict_lru
length-evict_lru m h = elim (Option-cases (least_order m)) [
  | inl e ↦ absurd (omega (arith, ap length (least_order-none m e)))
  | inr ((k, n), e) ↦ rw (e, evict_lru) (length-evict m k n e)
]

-- An insertion leaves at most `capacity` entries, when there were no more and the capacity is
-- positive.
pub length-insert-le_capacity :
    (now later : ℕ) (c : ReadResponseCache) (key : CacheKey) (response : List ℕ)
    → 0 < c.capacity
    → length c.entries ≤ c.capacity
    → length (insert now later c key response).entries ≤ c.capacity
unfolding insert remove_expired
length-insert-le_capacity now later c key response positive h =
    let fresh = retain_fresh now c.ttl c.entries in
    let kept = length-retain_fresh-le now c.ttl c.entries in
    let e : CacheEntry = record {
      response = response;
      inserted_at = later;
      order = c.next_order;
    } in
    elim (Bool-cases (leb c.capacity (length fresh))) [
      | inl full ↦ rw full (
          omega (
            arith,
            length-insert-le key e (evict_lru fresh),
            length-evict_lru fresh (ground arith),
          ))
      | inr roomy ↦ rw roomy (ground (arith, length-insert-le key e fresh))
    ]

-- Within its time to live a response that was just inserted is what a lookup of its key returns.
pub get-insert :
    (now later t : ℕ) (c : ReadResponseCache) (key : CacheKey) (response : List ℕ)
    → t - later ≤ c.ttl
    → (get t (insert now later c key response) key).1 ≡ some response
unfolding get insert
get-insert now later t c key response alive =
    let fresh = (remove_expired now c).entries in
    let room = if leb c.capacity (length fresh) then evict_lru fresh else fresh in
    let e : CacheEntry = record {
      response = response;
      inserted_at = later;
      order = c.next_order;
    } in
    let found : lookup key (map_insert key e room) ≡ some e =
      lookup-insert key key e room ∙ rw (same_refl key) in
    let live : ltb c.ttl (t - later) ≡ false = ground arith in rw (found, get) (rw live)

lookup-retain_fresh :
    (now ttl : ℕ) (m : Entries) (q : CacheKey) (e : CacheEntry)
    → lookup q m ≡ some e
    → now - e.inserted_at ≤ ttl
    → lookup q (retain_fresh now ttl m) ≡ some e
unfolding lookup retain_fresh
lookup-retain_fresh now ttl [] q e h alive = cc
lookup-retain_fresh now ttl ((j, x) ∷ m) q e h alive =
    ground (arith, lookup-retain_fresh now ttl m q e)

-- An insertion that finds fewer entries than the capacity keeps the entry of every other key
-- that has not expired.
pub insert_keeps_others :
    (now later : ℕ) (c : ReadResponseCache) (key q : CacheKey) (response : List ℕ) (e : CacheEntry)
    → lookup q c.entries ≡ some e
    → now - e.inserted_at ≤ c.ttl
    → key ≢ q
    → length c.entries < c.capacity
    → lookup q (insert now later c key response).entries ≡ some e
unfolding insert remove_expired
insert_keeps_others now later c key q response e h alive other roomy =
    let fresh = retain_fresh now c.ttl c.entries in
    let x : CacheEntry = record {
      response = response;
      inserted_at = later;
      order = c.next_order;
    } in
    let room : leb c.capacity (length fresh) ≡ false =
      ground (arith, length-retain_fresh-le now c.ttl c.entries) in
    rw room (
      lookup-insert key q x fresh
      ∙ rw (not_same key q other) (lookup-retain_fresh now c.ttl c.entries q e h alive))
