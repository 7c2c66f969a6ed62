-- ===== src/Managed/CachePool/Budget.antt =====
-- The bytes that the entries of a `CachePool` take (crates/ub-managed/src/cache_pool.rs), and the
-- entry that is evicted.
use unibus_toy.Base.{
  ℕ, ◌+◌, ◌^◌, ◌≤◌, ◌<◌, ◌≡◌, refl, sym, ap, inl, inr, true, false, none, some, [], ◌∷◌, arith, ltb,
  ◌==◌, ==-refl, Bool-cases, Option-cases, length,
}
use unibus_toy.Base.Assoc.{number_key, remove as map_remove, contains_key}
use unibus_toy.Managed.CachePool.{CacheEntry, Entries, CachePool, least_recent}

unfoldable pub total : Entries → ℕ
total [] = 0
total ((k, e) ∷ m) = e.len + total m

-- No region is cached twice.
abbrev pub IsDistinct : Entries → Type 0
IsDistinct [] = Unit
IsDistinct ((k, e) ∷ m) = (contains_key k m ≡ false) × IsDistinct m

pub remove-absent : (k : ℕ) (m : Entries) → contains_key k m ≡ false → map_remove k m ≡ m
unfolding map_remove contains_key
remove-absent k [] h = refl
remove-absent k ((j, e) ∷ m) h = elim (Bool-cases (j == k)) [
  | inl here ↦ absurd (ground arith)
  | inr elsewhere ↦ rw elsewhere (ap (◌∷◌ (j, e)) (remove-absent k m (rw elsewhere at h)))
]

pub contains_key-remove :
    (k q : ℕ) (m : Entries) → contains_key q m ≡ false → contains_key q (map_remove k m) ≡ false
unfolding map_remove contains_key
contains_key-remove k q [] h = refl
contains_key-remove k q ((j, e) ∷ m) h = ground (arith, contains_key-remove k q m)

pub remove-IsDistinct : (k : ℕ) (m : Entries) → IsDistinct m → IsDistinct (map_remove k m)
unfolding map_remove
remove-IsDistinct k [] h = tt
remove-IsDistinct k ((j, e) ∷ m) h = elim (Bool-cases (j == k)) [
  | inl here ↦ rw here (remove-IsDistinct k m h.1)
  | inr elsewhere ↦ rw elsewhere (contains_key-remove k j m h.0, remove-IsDistinct k m h.1)
]

-- Without the entry under `k`, which `m` has, `m` is shorter by it.
abbrev pub Without : Entries → ℕ → CacheEntry → Type 0
Without m k e =
    (total (map_remove k m) + e.len ≡ total m)
    × (length (map_remove k m) + 1 ≡ length m)
    × (contains_key k m ≡ true)

remove-head :
    (j : ℕ) (d : CacheEntry) (m : Entries) → map_remove j m ≡ m → map_remove j ((j, d) ∷ m) ≡ m
unfolding map_remove
remove-head j d m gone = rw (==-refl j) gone

least_first :
    (j : ℕ) (d : CacheEntry) (m : Entries) (k : ℕ) (e : CacheEntry)
    → map_remove j m ≡ m
    → j ≡ k
    → d ≡ e
    → Without ((j, d) ∷ m) k e
unfolding total contains_key
least_first j d m k e gone jk de =
    rw (sym jk, sym de, remove-head j d m gone, ==-refl j) (omega arith, omega arith, refl)

least_later :
    (j : ℕ) (d : CacheEntry) (m : Entries) (k : ℕ) (e : CacheEntry)
    → (j == k) ≡ false
    → Without m k e
    → Without ((j, d) ∷ m) k e
unfolding map_remove total contains_key
least_later j d m k e other (t, l, c) = rw other (omega (arith, t), omega (arith, l), c)

differ :
    (j k : ℕ) (m : Entries) → contains_key k m ≡ true → contains_key j m ≡ false → (j == k) ≡ false
differ j k m there missing = ground arith

-- Taking out what `least_recent` names takes its length from the total.
pub total-remove_least :
    (m : Entries) (k : ℕ) (e : CacheEntry)
    → IsDistinct m
    → least_recent m ≡ some (k, e)
    → Without m k e
unfolding least_recent map_remove total contains_key
total-remove_least [] k e h found = cc
total-remove_least ((j, d) ∷ m) k e h found = elim (Option-cases (least_recent m)) [
  | inl none_left ↦
      let p : some (j, d) ≡ some (k, e) = rw none_left at found in
      let gone : map_remove j m ≡ m = remove-absent j m h.0 in
      least_first j d m k e gone (cc p) (cc p)
  | inr ((i, c), rest) ↦ elim (Bool-cases (ltb c.last_access d.last_access)) [
    | inl older ↦
        let p : some (i, c) ≡ some (k, e) = rw (rest, older) at found in
        let ik : i ≡ k = cc p in
        let ce : c ≡ e = cc p in
        let later = total-remove_least m k e h.1 (rw (sym ik, sym ce) rest) in
        least_later j d m k e (differ j k m later.2 h.0) later
    | inr newer ↦
        let p : some (j, d) ≡ some (k, e) = rw (rest, newer) at found in
        let gone : map_remove j m ≡ m = remove-absent j m h.0 in
        least_first j d m k e gone (cc p) (cc p)
  ]
]

pub least_recent-none : (m : Entries) → least_recent m ≡ none → m ≡ []
unfolding least_recent
least_recent-none [] h = refl
least_recent-none ((k, e) ∷ m) h = ground arith

-- The count is right and within the budget, and the budget leaves room below 2^64 for `len`.
pub record IsBalanced (len : ℕ) (p : CachePool) : Type 0 where
  pub distinct : IsDistinct p.entries
  pub counted : p.used_bytes ≡ total p.entries
  pub within : p.used_bytes ≤ p.max_bytes
  pub room : p.max_bytes + len < 2 ^ 64
