-- ===== src/Transport/Dedup/Bitset.antt =====
-- The sixteen words of a window (crates/ub-transport/src/dedup.rs) as one row of bits.
use unibus_toy.Base.{
  ℕ, zero, suc, ◌*◌, ◌/◌, ◌%◌, ◌^◌, ◌<◌, bit_and, bit_or, ◌≡◌, refl, ◌≢◌, Bool, ◌||◌, List, [], ◌∷◌,
  arith, ◌==◌, Bool-cases, inl, inr, length, get_or, set, All, get_or-set_self, get_or-set_ne,
  All-set,
}
use unibus_toy.Base.Bits.{
  test_bit, test_bit-bit_or, bit_or-lt_pow, bit_and-one, test_bit_of_lt_pow, shifted_bit_below,
  shifted_bit_at, one_bit, zero-test_bit,
}
use native.Mathlib.Nat.{pow-le-pow_right}
use unibus_toy.Transport.Dedup.{shift_words}

abbrev pub IsWord : ℕ → Type 0
IsWord x = x < 2 ^ 64

-- Bit `b` of word `i`, and bit `i` of the row.
abbrev pub bit_of : List ℕ → ℕ → ℕ → Bool
bit_of ws i b = test_bit (get_or ws i 0) b

abbrev pub bit_at : List ℕ → ℕ → Bool
bit_at ws i = bit_of ws (i / 64) (i % 64)

pub length-shift_words : (ws : List ℕ) → length (shift_words ws) ≡ length ws
unfolding shift_words
length-shift_words [] = refl
length-shift_words (x ∷ []) = refl
length-shift_words (x ∷ y ∷ rest) = omega (arith, length-shift_words (y ∷ rest))

pub shift_words-IsWord : (ws : List ℕ) → All IsWord ws → All IsWord (shift_words ws)
unfolding shift_words
shift_words-IsWord [] h = tt
shift_words-IsWord (x ∷ []) h = (bit_or-lt_pow 64 (x / 2) 0 (omega arith) (omega arith), tt)
shift_words-IsWord (x ∷ y ∷ rest) h = (
  bit_or-lt_pow 64 (x / 2) (bit_and y 1 * 2 ^ 63) (omega arith) (omega (arith, bit_and-one y)),
  shift_words-IsWord (y ∷ rest) h.1,
)

-- One word of the shift, below its top bit and at it.
shifted_low : (x y b : ℕ) → b < 63 → test_bit (bit_or (x / 2) (y * 2 ^ 63)) b ≡ test_bit x (suc b)
shifted_low x y b h =
    ground (arith, test_bit-bit_or b (x / 2) (y * 2 ^ 63), shifted_bit_below 63 b y)

shifted_top :
    (x y : ℕ) → IsWord x → test_bit (bit_or (x / 2) (bit_and y 1 * 2 ^ 63)) 63 ≡ test_bit y 0
shifted_top x y h = ground (
  arith,
  test_bit-bit_or 63 (x / 2) (bit_and y 1 * 2 ^ 63),
  test_bit_of_lt_pow 63 63 (x / 2),
  shifted_bit_at 63 (bit_and y 1),
  bit_and-one y,
)

bit_of-shift_low :
    (ws : List ℕ) (i b : ℕ) → b < 63 → bit_of (shift_words ws) i b ≡ bit_of ws i (suc b)
unfolding shift_words
bit_of-shift_low [] i b h = refl
bit_of-shift_low (x ∷ []) zero b h = ground (arith, test_bit-bit_or b (x / 2) 0, zero-test_bit b)
bit_of-shift_low (x ∷ []) (suc i) b h = refl
bit_of-shift_low (x ∷ y ∷ rest) zero b h = shifted_low x (bit_and y 1) b h
bit_of-shift_low (x ∷ y ∷ rest) (suc i) b h = bit_of-shift_low (y ∷ rest) i b h

bit_of-shift_top :
    (ws : List ℕ) (i : ℕ) → All IsWord ws → bit_of (shift_words ws) i 63 ≡ bit_of ws (suc i) 0
unfolding shift_words
bit_of-shift_top [] i h = refl
bit_of-shift_top (x ∷ []) zero h =
    ground (arith, test_bit-bit_or 63 (x / 2) 0, test_bit_of_lt_pow 63 63 (x / 2))
bit_of-shift_top (x ∷ []) (suc i) h = refl
bit_of-shift_top (x ∷ y ∷ rest) zero h = shifted_top x y h.0
bit_of-shift_top (x ∷ y ∷ rest) (suc i) h = bit_of-shift_top (y ∷ rest) i h.1

-- The shift moves every bit of the row down by one, across the words too.
pub bit_at-shift_words :
    (ws : List ℕ) (i : ℕ) → All IsWord ws → bit_at (shift_words ws) i ≡ bit_at ws (suc i)
bit_at-shift_words ws i h = elim (Bool-cases (i % 64 == 63)) [
  | inl top ↦
      let a : i % 64 ≡ 63 = ground arith in
      let q : suc i / 64 ≡ suc (i / 64) = omega arith in
      let r : suc i % 64 ≡ 0 = omega arith in rw (a, q, r) (bit_of-shift_top ws (i / 64) h)
  | inr low ↦
      let b : i % 64 < 63 = ground arith in
      let q : suc i / 64 ≡ i / 64 = omega arith in
      let r : suc i % 64 ≡ suc (i % 64) = omega arith in
      rw (q, r) (bit_of-shift_low ws (i / 64) (i % 64) b)
]

abbrev pub with_bit : List ℕ → ℕ → List ℕ
with_bit ws o = set ws (o / 64) (bit_or (get_or ws (o / 64) 0) (2 ^ (o % 64)))

-- Setting bit `o` inside the row changes bit `o` only.
pub bit_at-with_bit :
    (ws : List ℕ) (o i : ℕ)
    → o / 64 < length ws
    → bit_at (with_bit ws o) i ≡ (bit_at ws i || (o == i))
bit_at-with_bit ws o i h = elim (Bool-cases (o / 64 == i / 64)) [
  | inl same ↦
      let q : i / 64 ≡ o / 64 = ground arith in
      let word = get_or ws (o / 64) 0 in
      let power = 2 ^ (o % 64) in
      rw (q, get_or-set_self ws (o / 64) (bit_or word power) 0 h)
        (ground (arith, test_bit-bit_or (i % 64) word power, one_bit (o % 64) (i % 64)))
  | inr other ↦
      let n : o / 64 ≢ i / 64 = ground arith in
      let word = bit_or (get_or ws (o / 64) 0) (2 ^ (o % 64)) in
      rw (get_or-set_ne ws (o / 64) (i / 64) word 0 n) (ground arith)
]

get_or-IsWord : (ws : List ℕ) (i : ℕ) → All IsWord ws → IsWord (get_or ws i 0)
get_or-IsWord [] i h = omega arith
get_or-IsWord (x ∷ ws) zero h = h.0
get_or-IsWord (x ∷ ws) (suc i) h = get_or-IsWord ws i h.1

pow-lt-IsWord : (k : ℕ) → k < 64 → IsWord (2 ^ k)
pow-lt-IsWord k h =
    omega (arith, pow-le-pow_right {n = 2} (omega arith) {i = k} {j = 63} (omega arith))

pub with_bit-IsWord : (ws : List ℕ) (o : ℕ) → All IsWord ws → All IsWord (with_bit ws o)
with_bit-IsWord ws o h =
    All-set IsWord ws (o / 64) _ h
      (bit_or-lt_pow 64 _ _ (get_or-IsWord ws (o / 64) h) (pow-lt-IsWord (o % 64) (omega arith)))
