-- ===== src/Core/Device/Backing/Access.antt =====
-- The accesses of crates/ub-core/src/device/memory.rs and npu.rs within bounds and out of them.
use unibus_toy.Base.{
  ℕ, ◌+◌, ◌^◌, ◌≤◌, ◌<◌, ◌≡◌, ◌∙◌, inl, inr, Bool, true, false, List, arith, ltb, if◌then◌else◌,
  Bool-cases, length, get_or, take, drop,
}
use mathlib.Core.Path.{subst, sym}
use unibus_toy.Core.Error.{ok, err, addr_invalid}
use unibus_toy.Core.Buffer.{
  overwrite, slice_within, splice_within, length-overwrite, get_or-overwrite, slice-overwrite,
  within,
}
use unibus_toy.Core.Device.Backing.{Backing, check_bounds, read, write}

-- A device that was allocated: no vector is longer than `isize::MAX`.
pub record IsBacking (d : Backing) : Type 0 where
  pub full : length d.bytes ≡ d.capacity
  pub addressable : d.capacity < 2 ^ 63

-- A buffer of the caller's is no longer either.
abbrev pub IsLen : ℕ → Type 0
IsLen len = len < 2 ^ 63

pub bounds_inside :
    (capacity offset len : ℕ)
    → capacity < 2 ^ 63
    → offset + len ≤ capacity
    → check_bounds capacity offset len ≡ ok tt
unfolding check_bounds
bounds_inside capacity offset len hc h = ground arith

pub bounds_outside :
    (capacity offset len : ℕ)
    → capacity < 2 ^ 63
    → len < 2 ^ 63
    → capacity < offset + len
    → check_bounds capacity offset len ≡ err addr_invalid
unfolding check_bounds
bounds_outside capacity offset len hc hl h = ground arith

-- The range lies on the device.
abbrev pub fits : ℕ → ℕ → Backing → Bool
fits offset len d = if ltb d.capacity (offset + len) then false else true

abbrev pub written : ℕ → List ℕ → Backing → Backing
written offset buf d = record d { bytes = overwrite offset buf d.bytes }

pub read_lem :
    (offset len : ℕ) (d : Backing)
    → IsBacking d
    → IsLen len
    → read offset len d
      ≡ (if fits offset len d then ok (take len (drop offset d.bytes)) else err addr_invalid)
unfolding read
read_lem offset len d v hl = elim (Bool-cases (ltb d.capacity (offset + len))) [
  | inl outside ↦ rw (outside, bounds_outside d.capacity offset len v.addressable hl (ground arith))
  | inr inside ↦ rw (
    inside,
    bounds_inside d.capacity offset len v.addressable (ground arith),
    slice_within offset len d.bytes (ground (arith, v.full)),
  )
]

pub write_lem :
    (offset : ℕ) (buf : List ℕ) (d : Backing)
    → IsBacking d
    → IsLen (length buf)
    → write offset buf d
      ≡ (if fits offset (length buf) d then ok (written offset buf d) else err addr_invalid)
unfolding write
write_lem offset buf d v hl = elim (Bool-cases (ltb d.capacity (offset + length buf))) [
  | inl outside ↦
      rw (outside, bounds_outside d.capacity offset (length buf) v.addressable hl (ground arith))
  | inr inside ↦ rw (
    inside,
    bounds_inside d.capacity offset (length buf) v.addressable (ground arith),
    splice_within offset buf d.bytes (ground (arith, v.full)),
  )
]

pub written-IsBacking :
    (offset : ℕ) (buf : List ℕ) (d : Backing)
    → IsBacking d
    → offset + length buf ≤ d.capacity
    → IsBacking (written offset buf d)
written-IsBacking offset buf d v h = record {
  full = length-overwrite offset buf d.bytes (omega (arith, v.full)) ∙ v.full;
  addressable = v.addressable;
}

write_fits :
    (offset : ℕ) (buf : List ℕ) (d d' : Backing)
    → IsBacking d
    → IsLen (length buf)
    → write offset buf d ≡ ok d'
    → (offset + length buf ≤ d.capacity) × (d' ≡ written offset buf d)
write_fits offset buf d d' v hl e =
    let whole = write_lem offset buf d v hl in
    elim (Bool-cases (ltb d.capacity (offset + length buf))) [
      | inl outside ↦ cc (e, rw outside at whole)
      | inr inside ↦ (ground arith, cc (e, rw inside at whole))
    ]

-- What a write of `buf` at `offset` leaves: the bytes read back, and all else is as before.
pub record Holds (offset : ℕ) (buf : List ℕ) (d d' : Backing) : Type 0 where
  pub back : read offset (length buf) d' ≡ ok buf
  pub elsewhere :
      (i : ℕ) → within offset (length buf) i ≡ false → get_or d'.bytes i 0 ≡ get_or d.bytes i 0
  pub valid : IsBacking d'

written-Holds :
    (offset : ℕ) (buf : List ℕ) (d : Backing)
    → IsBacking d
    → offset + length buf ≤ d.capacity
    → Holds offset buf d (written offset buf d)
unfolding read
written-Holds offset buf d v h =
    let inside : offset + length buf ≤ length d.bytes = omega (arith, v.full) in
    record {
      back = rw (
        bounds_inside d.capacity offset (length buf) v.addressable h,
        slice-overwrite offset buf d.bytes inside,
      );
      elsewhere = λ i out. rw (get_or-overwrite offset buf d.bytes i 0 inside, out);
      valid = written-IsBacking offset buf d v h;
    }

pub write-Holds :
    (offset : ℕ) (buf : List ℕ) (d d' : Backing)
    → IsBacking d
    → IsLen (length buf)
    → write offset buf d ≡ ok d'
    → Holds offset buf d d'
write-Holds offset buf d d' v hl e =
    let (h, made) = write_fits offset buf d d' v hl e in
    subst (Holds offset buf d) (sym made) (written-Holds offset buf d v h)
