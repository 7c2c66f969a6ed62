-- ===== src/Core/Device/Backing/Words.antt =====
-- The words of the atomic operations (crates/ub-core/src/device/memory.rs) to bytes and back.
use unibus_toy.Base.{ℕ, zero, suc, ◌/◌, ◌^◌, ◌<◌, ◌≡◌, refl, ap, arith, length}
use native.Mathlib.Nat.{pow-succ'}
use unibus_toy.Core.Device.Backing.{le_bytes, from_le}

pub length-le_bytes : (n v : ℕ) → length (le_bytes n v) ≡ n
unfolding le_bytes
length-le_bytes zero v = refl
length-le_bytes (suc n) v = ap suc (length-le_bytes n (v / 256))

pub from_le-le_bytes : (n v : ℕ) → v < 256 ^ n → from_le (le_bytes n v) ≡ v
unfolding from_le le_bytes
from_le-le_bytes zero v h = omega arith
from_le-le_bytes (suc n) v h =
    let high : v / 256 < 256 ^ n = omega (arith, pow-succ' 256 n) in
    omega (arith, from_le-le_bytes n (v / 256) high)
