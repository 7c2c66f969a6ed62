-- ===== src/Base/Bits.antt =====
-- The bits of a number, and what `|` and `&` do to each of them. The library's operations
-- compute at numerals only, so the laws at variables are drawn from their digit recursion.
use Prim.Native.Nat.{
  ℕ, zero, suc, ◌+◌, ◌*◌, ◌/◌, ◌%◌, ◌^◌, ◌≤◌, ◌<◌, min, max, bit_and, bit_or, digits,
  bit_and-bitwise, bit_or-bitwise,
}
use mathlib.Core.Path.{◌≡◌, refl, sym, ap}
use mathlib.Core.Bool.{Bool, false, ◌||◌}
use native.Mathlib.Nat.{pow-suc, pow-succ', div-div-eq-div-mul}
use native.Mathlib.Omega.{arith}
use unibus_toy.Base.Tests.{◌==◌}

-- Bit `j` of `a`, lowest first.
abbrev pub test_bit : ℕ → ℕ → Bool
test_bit a zero = a % 2 == 1
test_bit a (suc j) = test_bit (a / 2) j

-- The recursion on digits gives the same with any fuel from `a` up.
module _ (last : ℕ → ℕ) (op : ℕ → ℕ → ℕ) where
  enough_fuel : (f g a b : ℕ) → a ≤ f → a ≤ g → digits last op f a b ≡ digits last op g a b
  enough_fuel zero zero zero b hf hg = refl
  enough_fuel zero (suc g) zero b hf hg = refl
  enough_fuel (suc f) zero zero b hf hg = refl
  enough_fuel (suc f) (suc g) zero b hf hg = refl
  enough_fuel (suc f) (suc g) (suc a) b hf hg =
      rw (enough_fuel f g (suc a / 2) (b / 2) (omega arith) (omega arith))
  enough_fuel f g (suc a) b hf hg = absurd (omega arith)

pub bit_or_lowest : (a b : ℕ) → bit_or a b ≡ bit_or (a / 2) (b / 2) * 2 + max (a % 2) (b % 2)
bit_or_lowest zero b = omega (arith, bit_or-bitwise 0 b, bit_or-bitwise 0 (b / 2))
bit_or_lowest (suc a) b = omega (
  arith,
  bit_or-bitwise (suc a) b,
  bit_or-bitwise (suc a / 2) (b / 2),
  enough_fuel (λ y. y) max a (suc a / 2) (suc a / 2) (b / 2) (omega arith) (omega arith),
)

pub bit_and_lowest : (a b : ℕ) → bit_and a b ≡ bit_and (a / 2) (b / 2) * 2 + min (a % 2) (b % 2)
bit_and_lowest zero b = omega (arith, bit_and-bitwise 0 b, bit_and-bitwise 0 (b / 2))
bit_and_lowest (suc a) b = omega (
  arith,
  bit_and-bitwise (suc a) b,
  bit_and-bitwise (suc a / 2) (b / 2),
  enough_fuel (λ y. 0) min a (suc a / 2) (suc a / 2) (b / 2) (omega arith) (omega arith),
)

pub bit_and-zero_below : (n a : ℕ) → a ≤ n → bit_and a 0 ≡ 0
bit_and-zero_below n zero h = refl
bit_and-zero_below zero (suc a) h = absurd (omega arith)
bit_and-zero_below (suc n) (suc a) h =
    omega (arith, bit_and_lowest (suc a) 0, bit_and-zero_below n (suc a / 2) (omega arith))

pub bit_and-one : (a : ℕ) → bit_and a 1 ≡ a % 2
bit_and-one a = omega (arith, bit_and_lowest a 1, bit_and-zero_below (a / 2) (a / 2) (omega arith))

-- `|` takes the disjunction bit by bit.
pub test_bit-bit_or : (j a b : ℕ) → test_bit (bit_or a b) j ≡ (test_bit a j || test_bit b j)
test_bit-bit_or zero a b = ground (arith, bit_or_lowest a b)
test_bit-bit_or (suc j) a b =
    let e : bit_or a b / 2 ≡ bit_or (a / 2) (b / 2) = omega (arith, bit_or_lowest a b) in
    rw e (test_bit-bit_or j (a / 2) (b / 2))

pub bit_or-lt_pow : (k a b : ℕ) → a < 2 ^ k → b < 2 ^ k → bit_or a b < 2 ^ k
bit_or-lt_pow zero a b ha hb =
    let ea : a ≡ 0 = omega arith in let eb : b ≡ 0 = omega arith in rw (ea, eb) (omega arith)
bit_or-lt_pow (suc k) a b ha hb = omega (
  arith,
  pow-suc 2 k,
  bit_or_lowest a b,
  bit_or-lt_pow k (a / 2) (b / 2) (omega (arith, pow-suc 2 k)) (omega (arith, pow-suc 2 k)),
)

-- `(a >> j) & 1 == 1` reads bit `j`.
pub test_bit-shift : (j a : ℕ) → (bit_and (a / 2 ^ j) 1 == 1) ≡ test_bit a j
test_bit-shift zero a = ground (arith, bit_and-one (a / 1))
test_bit-shift (suc j) a =
    let e : a / 2 ^ suc j ≡ a / 2 / 2 ^ j = rw pow-succ' (sym (div-div-eq-div-mul a 2 (2 ^ j))) in
    rw e (test_bit-shift j (a / 2))

pub zero-test_bit : (j : ℕ) → test_bit 0 j ≡ false
zero-test_bit zero = refl
zero-test_bit (suc j) = zero-test_bit j

pub test_bit_of_lt_pow : (k j a : ℕ) → a < 2 ^ k → k ≤ j → test_bit a j ≡ false
test_bit_of_lt_pow zero j a ha h = let e : a ≡ 0 = omega arith in rw e (zero-test_bit j)
test_bit_of_lt_pow (suc k) zero a ha h = absurd (omega arith)
test_bit_of_lt_pow (suc k) (suc j) a ha h =
    test_bit_of_lt_pow k j (a / 2) (omega (arith, pow-suc 2 k)) (omega arith)

half_shifted : (x k : ℕ) → x * 2 ^ suc k / 2 ≡ x * 2 ^ k
half_shifted x k = omega (arith, ap (λ (t : ℕ). x * t) (pow-succ' 2 k))

even_shifted : (x k : ℕ) → x * 2 ^ suc k % 2 ≡ 0
even_shifted x k = omega (arith, ap (λ (t : ℕ). x * t) (pow-succ' 2 k))

-- `x << k` has the bits of `x` from bit `k` on, and none below.
pub shifted_bit_below : (k j x : ℕ) → j < k → test_bit (x * 2 ^ k) j ≡ false
shifted_bit_below zero j x h = absurd (omega arith)
shifted_bit_below (suc k) zero x h = ground (arith, even_shifted x k)
shifted_bit_below (suc k) (suc j) x h =
    rw (half_shifted x k) (shifted_bit_below k j x (omega arith))

pub shifted_bit_at : (k x : ℕ) → test_bit (x * 2 ^ k) k ≡ test_bit x 0
shifted_bit_at zero x = let e : x * 2 ^ 0 ≡ x = omega arith in rw e
shifted_bit_at (suc k) x = rw (half_shifted x k) (shifted_bit_at k x)

-- `1 << k` has the one bit `k`.
pub one_bit : (k j : ℕ) → test_bit (2 ^ k) j ≡ (j == k)
one_bit zero zero = refl
one_bit zero (suc j) = rw (zero-test_bit j) (ground arith)
one_bit (suc k) zero = ground (arith, pow-succ' 2 k)
one_bit (suc k) (suc j) =
    let e : 2 ^ suc k / 2 ≡ 2 ^ k = omega (arith, pow-succ' 2 k) in
    rw e (rw (one_bit k j) (ground arith))

-- `&` with a mask of low ones is a remainder.
and_3 : (a : ℕ) → bit_and a 3 ≡ a % 4
and_3 a = omega (arith, bit_and_lowest a 3, bit_and-one (a / 2))

pub and_7 : (a : ℕ) → bit_and a 7 ≡ a % 8
and_7 a = omega (arith, bit_and_lowest a 7, and_3 (a / 2))

and_15 : (a : ℕ) → bit_and a 15 ≡ a % 16
and_15 a = omega (arith, bit_and_lowest a 15, and_7 (a / 2))

and_31 : (a : ℕ) → bit_and a 31 ≡ a % 32
and_31 a = omega (arith, bit_and_lowest a 31, and_15 (a / 2))

and_63 : (a : ℕ) → bit_and a 63 ≡ a % 64
and_63 a = omega (arith, bit_and_lowest a 63, and_31 (a / 2))

pub and_127 : (a : ℕ) → bit_and a 127 ≡ a % 128
and_127 a = omega (arith, bit_and_lowest a 127, and_63 (a / 2))
