-- ===== src/Managed/SubAlloc.antt =====
-- crates/ub-managed/src/sub_alloc.rs: the bump allocator inside a pool. The loop around
-- `compare_exchange` ends with the round that no other thread disturbs, which is the one step here.
pub mod Disjoint
use unibus_toy.Base.{
  ℕ, zero, suc, ◌+◌, ◌-◌, ◌*◌, ◌/◌, ◌%◌, ◌^◌, ◌≤◌, ◌<◌, bit_and, bit_or, min, max, ◌≡◌, refl, sym,
  ap, ◌∙◌, ◌≢◌, ◌↔◌, ◌⊎◌, inl, inr, Bool, true, false, not, ◌&&◌, ◌||◌, Option, none, some, List,
  [], ◌∷◌, ◌++◌, map, arith, ltb, leb, ◌==◌, if◌then◌else◌, ltb→lt, lt→ltb, leb→le, le→leb,
  lt→not-leb, ==_iff, ==-refl, Bool-cases, Option-cases, Bool-ext, length, get_or, set, take, drop,
  replicate, All, length-append, length-set, get_or-set_self, get_or-set_ne, All-set, All-append,
  drop-append, take-append, length-drop,
}

pub record SubAllocator : Type 0 where
  pub base_offset : ℕ
  pub total_len : ℕ
  pub allocated : ℕ

unfoldable pub new : ℕ → ℕ → SubAllocator
new base_offset total_len = record {
  base_offset = base_offset;
  total_len = total_len;
  allocated = 0;
}

unfoldable pub alloc : ℕ → SubAllocator → SubAllocator × Option ℕ
alloc size p = if ltb p.total_len ((p.allocated + size) % 2 ^ 64) then (p, none) else (
  record p { allocated = (p.allocated + size) % 2 ^ 64 },
  some ((p.base_offset + p.allocated) % 2 ^ 64),
)

unfoldable pub free : ℕ → ℕ → SubAllocator → SubAllocator
free offset size p = p

unfoldable pub free_bytes : SubAllocator → ℕ
free_bytes p = p.total_len - p.allocated
