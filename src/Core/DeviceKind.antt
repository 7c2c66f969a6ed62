-- ===== src/Core/DeviceKind.antt =====
-- crates/ub-core/src/types.rs: `DeviceKind`, the kind of a device, which travels as one byte.
use unibus_toy.Base.{ℕ, ◌≡◌, refl, Option, none, some, ◌==◌, if◌then◌else◌, arith}
use unibus_toy.Core.Bytes.{Fits}

pub data DeviceKind : Type 0 where
  memory npu : DeviceKind

-- `kind as u8`
unfoldable pub to_u8 : DeviceKind → ℕ
to_u8 memory = 0
to_u8 npu = 1

unfoldable pub from_u8 : ℕ → Option DeviceKind
from_u8 v = if v == 0 then some memory else if v == 1 then some npu else none

pub from_u8-to_u8 : (k : DeviceKind) → from_u8 (to_u8 k) ≡ some k
unfolding from_u8 to_u8
from_u8-to_u8 memory = refl
from_u8-to_u8 _ = refl

pub to_u8-Fits : (k : DeviceKind) → Fits 1 (to_u8 k)
unfolding to_u8
to_u8-Fits memory = record { below = omega arith }
to_u8-Fits _ = record { below = omega arith }
