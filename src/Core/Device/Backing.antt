-- ===== src/Core/Device/Backing.antt =====
-- The bytes of a device with the accesses that crates/ub-core/src/device/memory.rs and npu.rs
-- share, text for text. The words of the atomic operations lie in memory as on the little-endian
-- hosts that the program is built for; a word that reached past the buffer counts as a panic.
pub mod Words
pub mod Access
pub mod Atomic
use unibus_toy.Base.{
  ℕ, zero, suc, ◌+◌, ◌*◌, ◌/◌, ◌%◌, ◌^◌, Bool, not, ◌||◌, List, [], ◌∷◌, ltb, ◌==◌, if◌then◌else◌,
  length,
}
use unibus_toy.Core.Error.{Result, ok, err, addr_invalid, alignment, guard, ◌>>=◌, ◌>>◌}
use unibus_toy.Core.Buffer.{slice, splice}

pub record Backing : Type 0 where
  pub bytes : List ℕ
  pub capacity : ℕ

-- `offset as usize + len`, in a build that wraps
unfoldable pub check_bounds : ℕ → ℕ → ℕ → Result (Unit {0})
check_bounds capacity offset len =
    let end = (offset + len) % 2 ^ 64 in
    if ltb capacity offset || ltb capacity end then err addr_invalid else ok tt

unfoldable pub check_alignment : ℕ → Result (Unit {0})
check_alignment offset = guard (offset % 8 == 0) alignment

-- The bytes that the caller's buffer of `len` bytes gets.
unfoldable pub read : ℕ → ℕ → Backing → Result (List ℕ)
read offset len d = do check_bounds d.capacity offset len; slice offset len d.bytes

unfoldable pub write : ℕ → List ℕ → Backing → Result Backing
write offset buf d = do
  check_bounds d.capacity offset (length buf)
  bytes' ← splice offset buf d.bytes
  ok (record d { bytes = bytes' })

-- A word as its bytes, lowest first.
unfoldable pub le_bytes : ℕ → ℕ → List ℕ
le_bytes zero v = []
le_bytes (suc n) v = (v % 256) ∷ le_bytes n (v / 256)

unfoldable pub from_le : List ℕ → ℕ
from_le [] = 0
from_le (b ∷ bs) = b + 256 * from_le bs

unfoldable pub load : ℕ → Backing → Result ℕ
load offset d = do word ← slice offset 8 d.bytes; ok (from_le word)

unfoldable pub store : ℕ → ℕ → Backing → Result Backing
store offset v d = do
  bytes' ← splice offset (le_bytes 8 v) d.bytes
  ok (record d { bytes = bytes' })

unfoldable pub atomic_cas : ℕ → ℕ → ℕ → Backing → Result (ℕ × Backing)
atomic_cas offset expect new d = do
  check_alignment offset
  check_bounds d.capacity offset 8
  old ← load offset d
  d' ← if old == expect then store offset new d else ok d
  ok (old, d')

unfoldable pub atomic_faa : ℕ → ℕ → Backing → Result (ℕ × Backing)
atomic_faa offset add d = do
  check_alignment offset
  check_bounds d.capacity offset 8
  old ← load offset d
  d' ← store offset ((old + add) % 2 ^ 64) d
  ok (old, d')
