-- ===== src/Base/Fields.antt =====
-- `|` and `&` on numbers laid out in fields: both work on each field by itself.
use Prim.Native.Nat.{
  ℕ, zero, suc, ◌+◌, ◌-◌, ◌*◌, ◌/◌, ◌%◌, ◌^◌, ◌≤◌, ◌<◌, min, max, bit_and, bit_or, bit_or-bitwise,
}
use mathlib.Core.Path.{◌≡◌, refl, sym, ap, ◌∙◌}
use native.Mathlib.Nat.{
  pow-succ', div-div-eq-div-mul, one-le-pow, div-add-mod, mul-div_cancel, mul-mod_left,
  div-eq_of_lt, mod-eq_of_lt,
}
use native.Mathlib.Omega.{arith}
use unibus_toy.Base.Bits.{bit_or_lowest, bit_and_lowest, bit_and-zero_below}

half_quotient : (k a : ℕ) → a / 2 ^ suc k ≡ a / 2 / 2 ^ k
half_quotient k a = rw pow-succ' (sym (div-div-eq-div-mul a 2 (2 ^ k)))

-- A remainder by `2 ^ (k + 1)` is one by `2 ^ k` above the lowest bit.
half_remainder : (k a : ℕ) → a % 2 ^ suc k ≡ a / 2 % 2 ^ k * 2 + a % 2
half_remainder k a = omega (
  arith,
  half_quotient k a,
  div-add-mod a (2 ^ suc k),
  div-add-mod (a / 2) (2 ^ k),
  ap (λ (t : ℕ). a / 2 / 2 ^ k * t) (pow-succ' 2 k),
  ap (λ (t : ℕ). t * 2 ^ suc k) (half_quotient k a),
)

half_of_remainder : (k a : ℕ) → a % 2 ^ suc k / 2 ≡ a / 2 % 2 ^ k
half_of_remainder k a = omega (arith, half_remainder k a)

parity_of_remainder : (k a : ℕ) → a % 2 ^ suc k % 2 ≡ a % 2
parity_of_remainder k a = omega (arith, half_remainder k a)

-- An operation that works digit by digit works field by field.
module _ (op digit : ℕ → ℕ → ℕ) (zeros : op 0 0 ≡ 0)
    (lowest : (a b : ℕ) → op a b ≡ op (a / 2) (b / 2) * 2 + digit (a % 2) (b % 2)) where
  digitwise-split :
      (k a b : ℕ) → op a b ≡ op (a / 2 ^ k) (b / 2 ^ k) * 2 ^ k + op (a % 2 ^ k) (b % 2 ^ k)
  digitwise-split zero a b =
      let qa : a / 1 ≡ a = omega arith in
      let qb : b / 1 ≡ b = omega arith in
      let ra : a % 1 ≡ 0 = omega arith in
      let rb : b % 1 ≡ 0 = omega arith in rw (qa, qb, ra, rb, zeros) (omega arith)
  digitwise-split (suc k) a b =
      let high = op (a / 2 / 2 ^ k) (b / 2 / 2 ^ k) in
      let low = op (a / 2 % 2 ^ k) (b / 2 % 2 ^ k) in
      let quotient : op (a / 2 ^ suc k) (b / 2 ^ suc k) ≡ high =
        rw (half_quotient k a, half_quotient k b) in
      let remainder : op (a % 2 ^ suc k) (b % 2 ^ suc k) ≡ low * 2 + digit (a % 2) (b % 2) =
        lowest (a % 2 ^ suc k) (b % 2 ^ suc k)
        ∙ rw (
          half_of_remainder k a,
          half_of_remainder k b,
          parity_of_remainder k a,
          parity_of_remainder k b,
        ) in
      omega (
        arith,
        lowest a b,
        digitwise-split k (a / 2) (b / 2),
        quotient,
        remainder,
        ap (λ (t : ℕ). t * 2 ^ suc k) quotient,
        ap (λ (t : ℕ). high * t) (pow-succ' 2 k),
      )

pub bit_or-split :
    (k a b : ℕ)
    → bit_or a b ≡ bit_or (a / 2 ^ k) (b / 2 ^ k) * 2 ^ k + bit_or (a % 2 ^ k) (b % 2 ^ k)
bit_or-split = digitwise-split bit_or max refl bit_or_lowest

pub bit_and-split :
    (k a b : ℕ)
    → bit_and a b ≡ bit_and (a / 2 ^ k) (b / 2 ^ k) * 2 ^ k + bit_and (a % 2 ^ k) (b % 2 ^ k)
bit_and-split = digitwise-split bit_and min refl bit_and_lowest

or-zero_below : (n a : ℕ) → a ≤ n → bit_or a 0 ≡ a
or-zero_below n zero h = refl
or-zero_below zero (suc a) h = absurd (omega arith)
or-zero_below (suc n) (suc a) h =
    omega (arith, bit_or_lowest (suc a) 0, or-zero_below n (suc a / 2) (omega arith))

pub or-zero : (a : ℕ) → bit_or a 0 ≡ a
or-zero a = or-zero_below a a (omega arith)

pub zero-or : (a : ℕ) → bit_or 0 a ≡ a
zero-or a = bit_or-bitwise 0 a

pub and-zero : (a : ℕ) → bit_and a 0 ≡ 0
and-zero a = bit_and-zero_below a a (omega arith)

-- Fields that do not overlap are joined by `|` as by `+`.
pub bit_or-fields : (k q r : ℕ) → r < 2 ^ k → bit_or (q * 2 ^ k) r ≡ q * 2 ^ k + r
bit_or-fields k q r h =
    let positive : 0 < 2 ^ k = one-le-pow k 2 (omega arith) in
    bit_or-split k (q * 2 ^ k) r
    ∙ rw (
      mul-div_cancel q positive,
      mul-mod_left q (2 ^ k),
      div-eq_of_lt h,
      mod-eq_of_lt h,
      or-zero q,
      zero-or r,
    )

-- `&` with `k` ones is the remainder by `2 ^ k`.
pub bit_and-ones : (k a : ℕ) → bit_and a (2 ^ k - 1) ≡ a % 2 ^ k
bit_and-ones zero a = and-zero a ∙ omega arith
bit_and-ones (suc k) a =
    let e : (2 ^ suc k - 1) / 2 ≡ 2 ^ k - 1 = omega (arith, pow-succ' 2 k) in
    let even : (2 ^ suc k - 1) % 2 ≡ 1 = omega (arith, pow-succ' 2 k, one-le-pow k 2) in
    bit_and_lowest a (2 ^ suc k - 1)
    ∙ rw (e, even, bit_and-ones k (a / 2)) (omega (arith, half_remainder k a))

-- `&` with `j` ones above `k` zeros rounds down to a multiple of `2 ^ k`.
pub bit_and_clear :
    (j k a : ℕ) → a / 2 ^ k < 2 ^ j → bit_and a ((2 ^ j - 1) * 2 ^ k) ≡ a / 2 ^ k * 2 ^ k
bit_and_clear j k a h =
    let positive : 0 < 2 ^ k = one-le-pow k 2 (omega arith) in
    bit_and-split k a ((2 ^ j - 1) * 2 ^ k)
    ∙ rw
        (
          mul-div_cancel (2 ^ j - 1) positive,
          mul-mod_left (2 ^ j - 1) (2 ^ k),
          bit_and-ones j (a / 2 ^ k),
          and-zero (a % 2 ^ k),
          mod-eq_of_lt h,
        )
        (omega arith)
