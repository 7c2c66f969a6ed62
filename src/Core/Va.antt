-- ===== src/Core/Va.antt =====
-- crates/ub-core/src/types.rs: `UbVa`, the virtual address [region:64 | offset:64], as its number.
use unibus_toy.Base.{ℕ, ◌*◌, ◌/◌, ◌%◌, ◌^◌, ◌<◌, ◌≡◌, bit_or, arith}
use unibus_toy.Base.Fields.{bit_or-fields}

pub new : ℕ → ℕ → ℕ
new region offset = bit_or (region * 2 ^ 64) offset

-- `(self.0 >> 64) as u64`
pub region_id : ℕ → ℕ
region_id va = va / 2 ^ 64 % 2 ^ 64

-- `self.0 as u64`
pub offset : ℕ → ℕ
offset va = va % 2 ^ 64

-- A region and an offset of 64 bits each come back from the virtual address that joins them.
pub region_id-new :
    (r o : ℕ) → r < 2 ^ 64 → o < 2 ^ 64 → (region_id (new r o) ≡ r) × (offset (new r o) ≡ o)
unfolding region_id offset new
region_id-new r o hr ho = rw (bit_or-fields 64 r o ho) (omega arith, omega arith)
