-- ===== src/Managed/SubAlloc/Disjoint.antt =====
-- The ranges that a `SubAllocator` hands out (crates/ub-managed/src/sub_alloc.rs).
use unibus_toy.Base.{
  ℕ, ◌+◌, ◌%◌, ◌^◌, ◌≤◌, ◌<◌, ◌≡◌, refl, sym, inl, inr, Option, none, some, List, [], ◌∷◌, ◌++◌,
  arith, ltb, Bool-cases, All,
}
use mathlib.Core.Path.{subst}
use unibus_toy.Managed.SubAlloc.{SubAllocator, alloc}

-- The ranges, as offset and length, that a run of requests gets; a refused one gets none.
abbrev range_of : ℕ → Option ℕ → List (ℕ × ℕ)
range_of size none = []
range_of size (some offset) = (offset, size) ∷ []

unfoldable pub alloc_all : List ℕ → SubAllocator → SubAllocator × List (ℕ × ℕ)
alloc_all [] p = (p, [])
alloc_all (size ∷ sizes) p =
    let more = alloc_all sizes (alloc size p).0 in
    (more.0, range_of size (alloc size p).1 ++ more.1)

-- Each range starts where the one before it has ended, or later, from `lo` on, and the last ends
-- at `hi` at the latest.
abbrev pub Apart : ℕ → List (ℕ × ℕ) → ℕ → Type 0
Apart lo [] hi = lo ≤ hi
Apart lo ((offset, size) ∷ ranges) hi = (lo ≤ offset) × Apart (offset + size) ranges hi

-- The pool ends below 2^64, and no more than its length is taken.
pub record IsPool (p : SubAllocator) : Type 0 where
  pub fits : p.base_offset + p.total_len < 2 ^ 64
  pub within : p.allocated ≤ p.total_len

-- The size does not wrap on top of what is taken.
abbrev pub IsSize : ℕ → ℕ → Type 0
IsSize total_len size = total_len + size < 2 ^ 64

alloc-IsPool : (size : ℕ) (p : SubAllocator) → IsPool p → IsPool (alloc size p).0
unfolding alloc
alloc-IsPool size p h = elim (Bool-cases (ltb p.total_len ((p.allocated + size) % 2 ^ 64))) [
  | inl full ↦ rw full h
  | inr room ↦ rw room (record { fits = h.fits; within = ground arith })
]

alloc-total_len : (size : ℕ) (p : SubAllocator) → (alloc size p).0.total_len ≡ p.total_len
unfolding alloc
alloc-total_len size p = elim (Bool-cases (ltb p.total_len ((p.allocated + size) % 2 ^ 64))) [
  | inl full ↦ rw full refl
  | inr room ↦ rw room refl
]

alloc-base_offset : (size : ℕ) (p : SubAllocator) → (alloc size p).0.base_offset ≡ p.base_offset
unfolding alloc
alloc-base_offset size p = elim (Bool-cases (ltb p.total_len ((p.allocated + size) % 2 ^ 64))) [
  | inl full ↦ rw full refl
  | inr room ↦ rw room refl
]

-- One request: the range lies at the end of what is taken, and what is taken then ends behind it.
alloc_one :
    (size : ℕ) (p : SubAllocator) (rest : List (ℕ × ℕ)) (hi : ℕ)
    → IsPool p
    → IsSize p.total_len size
    → Apart (p.base_offset + (alloc size p).0.allocated) rest hi
    → Apart (p.base_offset + p.allocated) (range_of size (alloc size p).1 ++ rest) hi
unfolding alloc
alloc_one size p rest hi h small later =
    elim (Bool-cases (ltb p.total_len ((p.allocated + size) % 2 ^ 64))) [
      | inl full ↦ rw full (rw full at later)
      | inr room ↦
          let sum : (p.allocated + size) % 2 ^ 64 ≡ p.allocated + size = omega (arith, h.within) in
          let at : (p.base_offset + p.allocated) % 2 ^ 64 ≡ p.base_offset + p.allocated =
            omega (arith, h.fits, h.within) in
          let behind : p.base_offset + p.allocated + size ≡ p.base_offset + (p.allocated + size) =
            omega arith in
          rw (room, at, behind) (omega arith, rw (room, sum) at later)
    ]

-- On a pool that ends below 2^64 and has taken no more than its length, a run of requests whose
-- sizes do not wrap on top of that length gets ranges that lie one behind the other, from the
-- end of what was taken to the end of the pool at most.
pub alloc_all-Apart :
    (sizes : List ℕ) (p : SubAllocator)
    → IsPool p
    → All (IsSize p.total_len) sizes
    → Apart (p.base_offset + p.allocated) (alloc_all sizes p).1 (p.base_offset + p.total_len)
unfolding alloc_all
alloc_all-Apart [] p h small = omega (arith, h.within)
alloc_all-Apart (size ∷ sizes) p h small =
    let p' = (alloc size p).0 in
    let small' : All (IsSize p'.total_len) sizes =
      subst (λ total. All (IsSize total) sizes) (sym (alloc-total_len size p)) small.1 in
    let later = alloc_all-Apart sizes p' (alloc-IsPool size p h) small' in
    alloc_one size p (alloc_all sizes p').1 (p.base_offset + p.total_len) h small.0
      (rw (alloc-total_len size p, alloc-base_offset size p) at later)
