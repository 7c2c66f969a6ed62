-- ===== src/Core/AccessPattern.antt =====
-- crates/ub-core/src/types.rs: `AccessPattern`, the access pattern of an allocation, which travels as one byte.
use unibus_toy.Base.{ℕ, ◌≡◌, refl, Option, none, some, ◌==◌, if◌then◌else◌, arith}
use unibus_toy.Core.Bytes.{Fits}

pub data AccessPattern : Type 0 where
  read_heavy write_heavy mixed : AccessPattern

-- `class as u8`
unfoldable pub to_u8 : AccessPattern → ℕ
to_u8 read_heavy = 0
to_u8 write_heavy = 1
to_u8 mixed = 2

unfoldable pub from_u8 : ℕ → Option AccessPattern
from_u8 v =
    if v == 0
    then some read_heavy
    else if v == 1
    then some write_heavy
    else if v == 2
    then some mixed
    else none

pub from_u8-to_u8 : (k : AccessPattern) → from_u8 (to_u8 k) ≡ some k
unfolding from_u8 to_u8
from_u8-to_u8 read_heavy = refl
from_u8-to_u8 _ = refl

pub to_u8-Fits : (k : AccessPattern) → Fits 1 (to_u8 k)
unfolding to_u8
to_u8-Fits read_heavy = record { below = omega arith }
to_u8-Fits _ = record { below = omega arith }
