-- ===== src/Core/StorageTier.antt =====
-- crates/ub-core/src/types.rs: `StorageTier`, the storage tier of a device, which travels as one byte.
use unibus_toy.Base.{ℕ, ◌≡◌, refl, Option, none, some, ◌==◌, if◌then◌else◌, arith}
use unibus_toy.Core.Bytes.{Fits}

pub data StorageTier : Type 0 where
  hot warm cold : StorageTier

-- `tier as u8`
unfoldable pub to_u8 : StorageTier → ℕ
to_u8 hot = 0
to_u8 warm = 1
to_u8 cold = 2

unfoldable pub from_u8 : ℕ → Option StorageTier
from_u8 v =
    if v == 0 then some hot else if v == 1 then some warm else if v == 2 then some cold else none

pub from_u8-to_u8 : (k : StorageTier) → from_u8 (to_u8 k) ≡ some k
unfolding from_u8 to_u8
from_u8-to_u8 hot = refl
from_u8-to_u8 _ = refl

pub to_u8-Fits : (k : StorageTier) → Fits 1 (to_u8 k)
unfolding to_u8
to_u8-Fits hot = record { below = omega arith }
to_u8-Fits _ = record { below = omega arith }
