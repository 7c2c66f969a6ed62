-- ===== src/Core/Bytes.antt =====
-- Big-endian numbers as bytes: `to_be_bytes` and `from_be_bytes` of the standard library, which
-- `put_u8` … `put_u64` of the wire format write and `read_u8` … `read_u64` read back.
use unibus_toy.Base.{
  ℕ, zero, suc, ◌+◌, ◌*◌, ◌/◌, ◌%◌, ◌^◌, ◌<◌, ◌≡◌, refl, sym, ap, List, [], ◌∷◌, arith, length, All,
}
use native.Mathlib.Nat.{pow-suc, div-div-eq-div-mul, div-eq_of_lt}

abbrev pub IsByte : ℕ → Type 0
IsByte b = b < 256

-- A number that `n` bytes hold.
pub record Fits (n v : ℕ) : Type 0 where
  pub below : v < 256 ^ n

-- The `n` low bytes of `v`, highest first.
unfoldable pub be_bytes : ℕ → ℕ → List ℕ
be_bytes zero v = []
be_bytes (suc n) v = (v / 256 ^ n % 256) ∷ be_bytes n v

unfoldable pub from_be : ℕ → List ℕ → ℕ
from_be acc [] = acc
from_be acc (b ∷ bs) = from_be (acc * 256 + b) bs

pub length-be_bytes : (n v : ℕ) → length (be_bytes n v) ≡ n
unfolding be_bytes
length-be_bytes zero v = refl
length-be_bytes (suc n) v = ap suc (length-be_bytes n v)

pub be_bytes-IsByte : (n v : ℕ) → All IsByte (be_bytes n v)
unfolding be_bytes
be_bytes-IsByte zero v = tt
be_bytes-IsByte (suc n) v = (omega arith, be_bytes-IsByte n v)

drop_digit : (n v : ℕ) → v / 256 ^ suc n ≡ v / 256 ^ n / 256
drop_digit n v = rw pow-suc (sym (div-div-eq-div-mul v (256 ^ n) 256))

-- What was read so far and what is left make up the number.
from_be-be_bytes_acc : (n acc v : ℕ) → v / 256 ^ n ≡ acc → from_be acc (be_bytes n v) ≡ v
unfolding from_be be_bytes
from_be-be_bytes_acc zero acc v h = omega arith
from_be-be_bytes_acc (suc n) acc v h =
    from_be-be_bytes_acc n (acc * 256 + v / 256 ^ n % 256) v (omega (arith, drop_digit n v))

-- Reading back the bytes of a number that fits them gives the number.
pub from_be-be_bytes : (n v : ℕ) → v < 256 ^ n → from_be 0 (be_bytes n v) ≡ v
from_be-be_bytes n v h = from_be-be_bytes_acc n 0 v (div-eq_of_lt h)
