-- ===== src/Managed/CachePool/Insert.antt =====
-- Eviction and insertion in a `CachePool` (crates/ub-managed/src/cache_pool.rs).
use unibus_toy.Base.{
  ℕ, zero, suc, ◌+◌, ◌-◌, ◌%◌, ◌^◌, ◌≤◌, ◌<◌, ◌≡◌, refl, sym, ap, ◌∙◌, inl, inr, Bool, true, false,
  ◌||◌, [], ◌∷◌, arith, ltb, ◌==◌, Bool-cases, Option-cases, length,
}
use unibus_toy.Base.Assoc.{number_key, insert as map_insert, remove as map_remove, contains_key}
use unibus_toy.Managed.SubAlloc.{alloc}
use unibus_toy.Managed.CachePool.{
  CacheEntry, Entries, CachePool, least_recent, take_out, evict_lru, evict_until, InsertResult,
  cannot_evict, place, insert, contains,
}
use unibus_toy.Managed.CachePool.Budget.{
  total, IsDistinct, contains_key-remove, remove-IsDistinct, total-remove_least, least_recent-none,
  IsBalanced,
}

-- One eviction: nothing is left to evict, or one entry less stays, and the pool stays balanced.
data Evicted (len : ℕ) (p : CachePool) (r : CachePool × Bool) : Type 0 where
  nothing_left : p.entries ≡ [] → r.0 ≡ p → r.1 ≡ false → Evicted len p r
  one_less :
      IsBalanced len r.0
      → length r.0.entries + 1 ≡ length p.entries
      → r.0.max_bytes ≡ p.max_bytes
      → ((q : ℕ) → contains_key q p.entries ≡ false → contains_key q r.0.entries ≡ false)
      → r.1 ≡ true
      → Evicted len p r

evict_lru_lem : (len : ℕ) (p : CachePool) → IsBalanced len p → Evicted len p (evict_lru p)
unfolding evict_lru take_out
evict_lru_lem len p h = elim (Option-cases (least_recent p.entries)) [
  | inl empty ↦
      nothing_left (least_recent-none p.entries empty) (rw (empty, evict_lru) refl)
        (rw (empty, evict_lru) refl)
  | inr ((k, e), found) ↦
      let (t, l, c) = total-remove_least p.entries k e h.distinct found in
      let less : (p.used_bytes + 2 ^ 64 - e.len) % 2 ^ 64 ≡ total (map_remove k p.entries) =
        omega (arith, t, h.counted, h.within, h.room) in
      rw (found, evict_lru)
        (one_less
          (record {
            distinct = remove-IsDistinct k p.entries h.distinct;
            counted = less;
            within = rw less (omega (arith, t, h.counted, h.within));
            room = h.room;
          })
          l refl (λ q absent. contains_key-remove k q p.entries absent) refl)
]

-- What the loop of `insert` leaves: a balanced pool, in which `len` bytes more are within the
-- budget when the loop says so; and it says no only where `len` is over the budget at all.
record MadeRoom (len : ℕ) (p : CachePool) (r : CachePool × Bool) : Type 0 where
  balanced : IsBalanced len r.0
  budget : r.0.max_bytes ≡ p.max_bytes
  absent : (q : ℕ) → contains_key q p.entries ≡ false → contains_key q r.0.entries ≡ false
  fits : r.1 ≡ true → r.0.used_bytes + len ≤ r.0.max_bytes
  too_large : r.1 ≡ false → p.max_bytes < len

evict_until_lem :
    (fuel len : ℕ) (p : CachePool)
    → IsBalanced len p
    → length p.entries < fuel
    → MadeRoom len p (evict_until fuel len p)
unfolding evict_until
evict_until_lem zero len p h enough = absurd (omega (arith, enough))
evict_until_lem (suc fuel) len p h enough =
    let sum : (p.used_bytes + len) % 2 ^ 64 ≡ p.used_bytes + len =
      omega (arith, h.within, h.room) in
    elim (Bool-cases (ltb p.max_bytes (p.used_bytes + len))) [
      | inr fits ↦
          rw (sum, fits)
            (record {
              balanced = h;
              budget = refl;
              absent = λ q a. a;
              fits = λ e. ground arith;
              too_large = λ e. cc;
            })
      | inl over ↦ elim (evict_lru_lem len p h) [
        | nothing_left empty same stop ↦
            let used : p.used_bytes ≡ 0 = h.counted ∙ rw empty (unfold total in refl) in
            rw (sum, over, stop, same)
              (record {
                balanced = h;
                budget = refl;
                absent = λ q a. a;
                fits = λ e. cc;
                too_large = λ e. ground arith;
              })
        | one_less next less budget absent went ↦
            let r = evict_until_lem fuel len (evict_lru p).0 next (omega (arith, less, enough)) in
            rw (sum, over, went)
              (record {
                balanced = r.balanced;
                budget = r.budget ∙ budget;
                absent = λ q a. r.absent q (absent q a);
                fits = r.fits;
                too_large = λ e. omega (arith, budget, r.too_large e);
              })
      ]
    ]

contains_key-insert :
    (k q : ℕ) (e : CacheEntry) (m : Entries)
    → contains_key q (map_insert k e m) ≡ ((k == q) || contains_key q m)
unfolding map_insert contains_key
contains_key-insert k q e [] = ground arith
contains_key-insert k q e ((j, d) ∷ m) = ground (arith, contains_key-insert k q e m)

insert_absent :
    (k : ℕ) (e : CacheEntry) (m : Entries)
    → contains_key k m ≡ false
    → IsDistinct m
    → (total (map_insert k e m) ≡ total m + e.len) × IsDistinct (map_insert k e m)
unfolding map_insert contains_key total
insert_absent k e [] h distinct = (omega arith, (refl, tt))
insert_absent k e ((j, d) ∷ m) h distinct = elim (Bool-cases (j == k)) [
  | inl here ↦ absurd (ground arith)
  | inr other ↦
      let (t, rest) = insert_absent k e m (rw other at h) distinct.1 in
      let apart : contains_key j (map_insert k e m) ≡ false =
        contains_key-insert k j e m ∙ ground (arith, distinct.0) in
      rw other (omega (arith, t), (apart, rest))
]

place_lem :
    (now k len epoch : ℕ) (p : CachePool)
    → IsBalanced len p
    → contains_key k p.entries ≡ false
    → p.used_bytes + len ≤ p.max_bytes
    → IsBalanced len (place now k len epoch p).0
unfolding place
place_lem now k len epoch p h fresh fits = elim (Option-cases (alloc len p.allocator).1) [
  | inl full ↦
      rw (full, place)
        (record { distinct = h.distinct; counted = h.counted; within = h.within; room = h.room })
  | inr (offset, placed) ↦
      let sum : (p.used_bytes + len) % 2 ^ 64 ≡ p.used_bytes + len =
        omega (arith, h.within, h.room) in
      let (t, d) =
        insert_absent k
          (record {
            region_id = k;
            pool_offset = offset;
            len = len;
            epoch = epoch;
            last_access = now;
          })
          p.entries fresh h.distinct in
      rw (placed, place)
        (record {
          distinct = d;
          counted = rw sum (ap (λ (n : ℕ). n + len) h.counted ∙ sym t);
          within = rw sum fits;
          room = h.room;
        })
]

abbrev pub is_refused : InsertResult → Bool
is_refused cannot_evict = true
is_refused _ = false

place_result :
    (now k len epoch : ℕ) (p : CachePool) → is_refused (place now k len epoch p).1 ≡ false
unfolding place
place_result now k len epoch p = elim (Option-cases (alloc len p.allocator).1) [
  | inl full ↦ rw (full, place) refl
  | inr (offset, placed) ↦ rw (placed, place) refl
]

-- On a pool that caches no region twice, whose count of used bytes is the sum of the lengths it
-- caches and within the budget, with the budget and the new length below 2^64 together,
-- inserting a region that is not cached leaves such a pool, whatever it evicts and whether or
-- not the allocator has space; and it gives up evicting exactly when the region is larger than
-- the whole budget.
pub insert-IsBalanced :
    (now k len epoch : ℕ) (p : CachePool)
    → IsBalanced len p
    → contains k p ≡ false
    → IsBalanced len (insert now k len epoch p).0
      × (is_refused (insert now k len epoch p).1 ≡ ltb p.max_bytes len)
unfolding insert contains
insert-IsBalanced now k len epoch p h fresh =
    let r = evict_until_lem (suc (length p.entries)) len p h (omega arith) in
    let q = (evict_until (suc (length p.entries)) len p).0 in
    elim (Bool-cases (evict_until (suc (length p.entries)) len p).1) [
      | inl yes_ ↦
          rw (yes_, insert)
            (
              place_lem now k len epoch q r.balanced (r.absent k fresh) (r.fits yes_),
              place_result now k len epoch q ∙ ground (arith, r.fits yes_, r.budget),
            )
      | inr no_ ↦ rw (no_, insert) (r.balanced, ground (arith, r.too_large no_))
    ]
