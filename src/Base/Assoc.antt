-- ===== src/Base/Assoc.antt =====
-- The hash maps of the program as association lists: `insert` replaces the entry of a key in its
-- place, and `remove` drops every entry of its key.
use mathlib.Core.Path.{◌≡◌, refl, subst}
use mathlib.Core.Logic.{◌↔◌, inl, inr}
use mathlib.Core.Bool.{Bool, true, false, ◌&&◌}
use mathlib.Core.Option
use mathlib.Core.Option.{Option, none, some}
use mathlib.Core.List.{List, [], ◌∷◌}
use Prim.Native.Nat.{ℕ, ◌+◌, ◌≤◌}
use native.Mathlib.Omega.{arith}
use unibus_toy.Base.Tests.{◌==◌, ==_iff, if◌then◌else◌, Bool-cases}
use unibus_toy.Base.Lists.{length, All}

-- The keys of a hash map, with the test of equality that decides where an entry goes.
pub record Key {ℓ} (K : Type ℓ) : Type ℓ where
  pub same : K → K → Bool
  pub same_iff : (j k : K) → (same j k ≡ true) ↔ (j ≡ k)

infix 50 ◌≟◌
abbrev pub ◌≟◌ {ℓ} : {K : Type ℓ} ⦃key : Key K⦄ → K → K → Bool
◌≟◌ ⦃key⦄ j k = key.same j k

abbrev same_pair : ℕ × ℕ → ℕ × ℕ → Bool
same_pair (a, b) (c, d) = a == c && b == d

pub same_pair_iff : (j k : ℕ × ℕ) → (same_pair j k ≡ true) ↔ (j ≡ k)
same_pair_iff (a, b) (c, d) = ground arith

instance abbrev pub pair_key : Key (ℕ × ℕ)
pair_key = record { same = same_pair; same_iff = same_pair_iff }

instance abbrev pub number_key : Key ℕ
number_key = record { same_iff = ==_iff; same = ◌==◌ }

module _ {ℓ κ} {K : Type ℓ} {V : Type κ} ⦃key : Key K⦄ where
  -- `HashMap::get`
  unfoldable pub lookup : K → List (K × V) → Option V
  lookup k [] = none
  lookup k ((j, v) ∷ m) = if j ≟ k then some v else lookup k m

  -- `HashMap::insert`, which replaces the value of a key that is there
  unfoldable pub insert : K → V → List (K × V) → List (K × V)
  insert k v [] = (k, v) ∷ []
  insert k v ((j, w) ∷ m) = if j ≟ k then (k, v) ∷ m else (j, w) ∷ insert k v m

  -- `HashMap::remove`
  unfoldable pub remove : K → List (K × V) → List (K × V)
  remove k [] = []
  remove k ((j, v) ∷ m) = let rest = remove k m in if j ≟ k then rest else (j, v) ∷ rest

  -- A write through `HashMap::get_mut`
  unfoldable pub modify : K → (V → V) → List (K × V) → List (K × V)
  modify k f [] = []
  modify k f ((j, v) ∷ m) = (j, if j ≟ k then f v else v) ∷ modify k f m

  -- `HashMap::contains_key`
  unfoldable pub contains_key : K → List (K × V) → Bool
  contains_key k [] = false
  contains_key k ((j, v) ∷ m) = if j ≟ k then true else contains_key k m

pub same_refl {ℓ} : {K : Type ℓ} ⦃key : Key K⦄ (k : K) → (k ≟ k) ≡ true
same_refl ⦃key⦄ k = (key.same_iff k k).1 refl

module _ {ℓ κ} {K : Type ℓ} {V : Type κ} ⦃key : Key K⦄ where
  pub lookup-insert :
      (k q : K) (v : V) (m : List (K × V))
      → lookup q (insert k v m) ≡ (if k ≟ q then some v else lookup q m)
  unfolding lookup insert
  lookup-insert k q v [] = refl
  lookup-insert k q v ((j, w) ∷ m) =
      ground (arith, key.same_iff k q, key.same_iff j k, key.same_iff j q, lookup-insert k q v m)

  pub lookup-remove :
      (k q : K) (m : List (K × V)) → lookup q (remove k m) ≡ (if k ≟ q then none else lookup q m)
  unfolding lookup remove
  lookup-remove k q [] = ground arith
  lookup-remove k q ((j, w) ∷ m) =
      ground (arith, key.same_iff k q, key.same_iff j k, key.same_iff j q, lookup-remove k q m)

  pub lookup-modify :
      (k q : K) (f : V → V) (m : List (K × V))
      → lookup q (modify k f m) ≡ (if k ≟ q then Option.map f (lookup q m) else lookup q m)
  unfolding lookup modify
  lookup-modify k q f [] = ground arith
  lookup-modify k q f ((j, w) ∷ m) =
      ground (arith, key.same_iff k q, key.same_iff j k, key.same_iff j q, lookup-modify k q f m)

  pub length-remove-le : (k : K) (m : List (K × V)) → length (remove k m) ≤ length m
  unfolding remove
  length-remove-le k [] = omega arith
  length-remove-le k ((j, v) ∷ m) = ground (arith, length-remove-le k m)

  pub length-insert-le : (k : K) (v : V) (m : List (K × V)) → length (insert k v m) ≤ length m + 1
  unfolding insert
  length-insert-le k v [] = omega arith
  length-insert-le k v ((j, w) ∷ m) = ground (arith, length-insert-le k v m)

  -- What holds of every value holds of the one that is found.
  pub lookup-All {μ} :
      (P : V → Type μ) (k : K) (v : V) (m : List (K × V))
      → All (λ (p : K × V). P p.1) m
      → lookup k m ≡ some v
      → P v
  unfolding lookup
  lookup-All P k v [] h e = cc e
  lookup-All P k v ((j, w) ∷ m) h e = elim (Bool-cases (j ≟ k)) [
    | inl same ↦ let found : some w ≡ some v = rw same at e in subst P (cc found) h.0
    | inr other ↦ lookup-All P k v m h.1 (rw other at e)
  ]

  pub insert-All {μ} :
      (P : K × V → Type μ) (k : K) (v : V) (m : List (K × V))
      → All P m
      → P (k, v)
      → All P (insert k v m)
  unfolding insert
  insert-All P k v [] h hv = (hv, tt)
  insert-All P k v ((j, w) ∷ m) h hv = elim (Bool-cases (j ≟ k)) [
    | inl same ↦ rw same (hv, h.1)
    | inr other ↦ rw other (h.0, insert-All P k v m h.1 hv)
  ]

  pub remove-All {μ} :
      (P : K × V → Type μ) (k : K) (m : List (K × V)) → All P m → All P (remove k m)
  unfolding remove
  remove-All P k [] h = h
  remove-All P k ((j, w) ∷ m) h = elim (Bool-cases (j ≟ k)) [
    | inl same ↦ rw same (remove-All P k m h.1)
    | inr other ↦ rw other (h.0, remove-All P k m h.1)
  ]

  pub modify-All {μ} :
      (P : K × V → Type μ) (k : K) (f : V → V) (m : List (K × V))
      → ((j : K) (v : V) → P (j, v) → P (j, f v))
      → All P m
      → All P (modify k f m)
  unfolding modify
  modify-All P k f [] kept h = h
  modify-All P k f ((j, w) ∷ m) kept h = elim (Bool-cases (j ≟ k)) [
    | inl same ↦ rw same (kept j w h.0, modify-All P k f m kept h.1)
    | inr other ↦ rw other (h.0, modify-All P k f m kept h.1)
  ]

  pub contains-insert :
      (k q : K) (v : V) (m : List (K × V))
      → contains_key q (insert k v m) ≡ (if k ≟ q then true else contains_key q m)
  unfolding contains_key insert
  contains-insert k q v [] = refl
  contains-insert k q v ((j, w) ∷ m) =
      ground (arith, key.same_iff k q, key.same_iff j k, key.same_iff j q, contains-insert k q v m)

  pub contains-remove :
      (k q : K) (m : List (K × V))
      → contains_key q (remove k m) ≡ (if k ≟ q then false else contains_key q m)
  unfolding contains_key remove
  contains-remove k q [] = ground arith
  contains-remove k q ((j, w) ∷ m) =
      ground (arith, key.same_iff k q, key.same_iff j k, key.same_iff j q, contains-remove k q m)
