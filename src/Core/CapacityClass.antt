-- ===== src/Core/CapacityClass.antt =====
-- crates/ub-core/src/types.rs: `CapacityClass`, the capacity class of an allocation, which travels as one byte.
use unibus_toy.Base.{ℕ, ◌≡◌, refl, Option, none, some, ◌==◌, if◌then◌else◌, arith}
use unibus_toy.Core.Bytes.{Fits}

pub data CapacityClass : Type 0 where
  small large huge : CapacityClass

-- `class as u8`
unfoldable pub to_u8 : CapacityClass → ℕ
to_u8 small = 0
to_u8 large = 1
to_u8 huge = 2

unfoldable pub from_u8 : ℕ → Option CapacityClass
from_u8 v =
    if v == 0 then some small else if v == 1 then some large else if v == 2 then some huge else none

pub from_u8-to_u8 : (k : CapacityClass) → from_u8 (to_u8 k) ≡ some k
unfolding from_u8 to_u8
from_u8-to_u8 small = refl
from_u8-to_u8 _ = refl

pub to_u8-Fits : (k : CapacityClass) → Fits 1 (to_u8 k)
unfolding to_u8
to_u8-Fits small = record { below = omega arith }
to_u8-Fits _ = record { below = omega arith }
