-- ===== src/Core/Perms.antt =====
-- crates/ub-core/src/types.rs: `MrPerms`, the permissions of a memory region, as their bits.
use unibus_toy.Base.{ℕ, ◌<◌, ◌≡◌, ◌∙◌, bit_and, Bool, ◌==◌, arith}
use unibus_toy.Base.Bits.{and_7}

abbrev pub perm_read : ℕ
perm_read = 1

abbrev pub perm_write : ℕ
perm_write = 2

abbrev pub perm_atomic : ℕ
perm_atomic = 4

-- `self.perms.contains(required)`
unfoldable pub contains : ℕ → ℕ → Bool
contains perms required = bit_and perms required == required

-- `MrPerms::from_bits_truncate`
unfoldable pub truncate : ℕ → ℕ
truncate bits = bit_and bits 7

-- A value of the type has no other bits.
pub truncate_id : (perms : ℕ) → perms < 8 → truncate perms ≡ perms
unfolding truncate
truncate_id perms h = and_7 perms ∙ omega arith
