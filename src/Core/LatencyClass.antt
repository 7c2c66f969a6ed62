-- ===== src/Core/LatencyClass.antt =====
-- crates/ub-core/src/types.rs: `LatencyClass`, the latency class of an allocation, which travels as one byte.
use unibus_toy.Base.{ℕ, ◌≡◌, refl, Option, none, some, ◌==◌, if◌then◌else◌, arith}
use unibus_toy.Core.Bytes.{Fits}

pub data LatencyClass : Type 0 where
  critical normal bulk : LatencyClass

-- `class as u8`
unfoldable pub to_u8 : LatencyClass → ℕ
to_u8 critical = 0
to_u8 normal = 1
to_u8 bulk = 2

unfoldable pub from_u8 : ℕ → Option LatencyClass
from_u8 v =
    if v == 0
    then some critical
    else if v == 1
    then some normal
    else if v == 2
    then some bulk
    else none

pub from_u8-to_u8 : (k : LatencyClass) → from_u8 (to_u8 k) ≡ some k
unfolding from_u8 to_u8
from_u8-to_u8 critical = refl
from_u8-to_u8 _ = refl

pub to_u8-Fits : (k : LatencyClass) → Fits 1 (to_u8 k)
unfolding to_u8
to_u8-Fits critical = record { below = omega arith }
to_u8-Fits _ = record { below = omega arith }
