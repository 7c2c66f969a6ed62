-- ===== src/Core/Addr.antt =====
-- crates/ub-core/src/addr.rs: the 128-bit address [pod:16 | node:16 | device:16 | offset:64 |
-- reserved:16]. An address is its number.

pub mod Fields
use unibus_toy.Base.{ℕ, ◌+◌, ◌*◌, ◌/◌, ◌-◌, ◌%◌, ◌^◌, bit_and, bit_or, List}
use unibus_toy.Core.Bytes.{be_bytes, from_be}

-- `UbAddr::new`; the fields are below 2 ^ 16, and `offset` below 2 ^ 64.
unfoldable pub new : ℕ → ℕ → ℕ → ℕ → ℕ → ℕ
new pod_id node_id device_id offset reserved =
    bit_or
      (bit_or (bit_or (bit_or (pod_id * 2 ^ 112) (node_id * 2 ^ 96)) (device_id * 2 ^ 80))
        (offset * 2 ^ 16))
      reserved

pub pod_id : ℕ → ℕ
pod_id a = bit_and (a / 2 ^ 112) 0xffff

unfoldable pub node_id : ℕ → ℕ
node_id a = bit_and (a / 2 ^ 96) 0xffff

unfoldable pub device_id : ℕ → ℕ
device_id a = bit_and (a / 2 ^ 80) 0xffff

unfoldable pub offset : ℕ → ℕ
offset a = bit_and (a / 2 ^ 16) 0xffff_ffff_ffff_ffff

pub reserved : ℕ → ℕ
reserved a = bit_and a 0xffff

-- `!(0xFFFF_FFFF_FFFF_FFFF << 16)` as a 128-bit number is written out: all ones but those 64.
pub with_offset : ℕ → ℕ → ℕ
with_offset a new_offset =
    bit_or (bit_and a (2 ^ 128 - 1 - 0xffff_ffff_ffff_ffff * 2 ^ 16)) (new_offset * 2 ^ 16)

pub to_bytes : ℕ → List ℕ
to_bytes a = be_bytes 16 a

pub from_bytes : List ℕ → ℕ
from_bytes buf = from_be 0 buf
