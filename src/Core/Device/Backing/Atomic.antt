-- ===== src/Core/Device/Backing/Atomic.antt =====
-- The atomic operations of crates/ub-core/src/device/memory.rs and npu.rs.
use unibus_toy.Base.{
  ℕ, ◌+◌, ◌%◌, ◌^◌, ◌≤◌, ◌<◌, ◌≡◌, refl, inl, inr, true, false, List, [], ◌∷◌, arith, ltb, ◌==◌,
  if◌then◌else◌, Bool-cases, length, take, drop,
}
use unibus_toy.Core.Error.{Result, ok, err, addr_invalid, alignment, ◌>>=◌, ◌>>◌}
use unibus_toy.Core.Buffer.{
  slice_within, splice_within, slice-overwrite, overwrite, length-overwrite,
}
use unibus_toy.Core.Device.Backing.{
  Backing, check_bounds, check_alignment, load, store, atomic_cas, atomic_faa, le_bytes, from_le,
}
use unibus_toy.Core.Device.Backing.Words.{length-le_bytes, from_le-le_bytes}
use unibus_toy.Core.Device.Backing.Access.{
  IsBacking, fits, written, bounds_inside, bounds_outside, written-IsBacking,
}

-- The word that lies at an offset.
unfoldable pub word : ℕ → Backing → ℕ
word offset d = from_le (take 8 (drop offset d.bytes))

-- The device after a word was stored.
unfoldable pub stored : ℕ → ℕ → Backing → Backing
stored offset v d = written offset (le_bytes 8 v) d

load_within :
    (offset : ℕ) (d : Backing)
    → IsBacking d
    → offset + 8 ≤ d.capacity
    → load offset d ≡ ok (word offset d)
unfolding load word
load_within offset d v h = rw (slice_within offset 8 d.bytes (omega (arith, v.full)))

store_within :
    (offset x : ℕ) (d : Backing)
    → IsBacking d
    → offset + 8 ≤ d.capacity
    → store offset x d ≡ ok (stored offset x d)
unfolding store stored
store_within offset x d v h =
    rw (splice_within offset (le_bytes 8 x) d.bytes (omega (arith, v.full, length-le_bytes 8 x)))

pub stored-IsBacking :
    (offset x : ℕ) (d : Backing)
    → IsBacking d
    → offset + 8 ≤ d.capacity
    → IsBacking (stored offset x d)
unfolding stored
stored-IsBacking offset x d v h =
    written-IsBacking offset (le_bytes 8 x) d v (omega (arith, length-le_bytes 8 x))

abbrev stored_bytes : ℕ → ℕ → Backing → List ℕ
stored_bytes offset x d = overwrite offset (le_bytes 8 x) d.bytes

pub word-stored :
    (offset x : ℕ) (d : Backing)
    → IsBacking d
    → offset + 8 ≤ d.capacity
    → x < 2 ^ 64
    → word offset (stored offset x d) ≡ x
unfolding stored word
word-stored offset x d v h hx =
    let inside : offset + length (le_bytes 8 x) ≤ length d.bytes =
      omega (arith, v.full, length-le_bytes 8 x) in
    let back = slice-overwrite offset (le_bytes 8 x) d.bytes inside in
    let cut =
      slice_within offset 8 (stored_bytes offset x d)
        (omega (arith, length-overwrite offset (le_bytes 8 x) d.bytes inside, v.full)) in
    let same : take 8 (drop offset (stored_bytes offset x d)) ≡ le_bytes 8 x =
      cc (cut, rw (length-le_bytes 8 x) at back) in
    rw same (from_le-le_bytes 8 x hx)

-- What the guards of an atomic operation let through.
abbrev guarded {ℓ} : {A : Type ℓ} → ℕ → Backing → A → Result A
guarded offset d a =
    if offset % 8 == 0 then (if fits offset 8 d then ok a else err addr_invalid) else err alignment

guards {ℓ} :
    {A : Type ℓ} (offset : ℕ) (d : Backing) (m : Result A) (a : A)
    → IsBacking d
    → (offset + 8 ≤ d.capacity → m ≡ ok a)
    → (check_alignment offset >> (check_bounds d.capacity offset 8 >> m)) ≡ guarded offset d a
unfolding check_alignment
guards offset d m a v inside = elim (Bool-cases (offset % 8 == 0)) [
  | inr odd ↦ rw odd
  | inl even ↦ elim (Bool-cases (ltb d.capacity (offset + 8))) [
    | inl beyond ↦ rw (
      even,
      beyond,
      bounds_outside d.capacity offset 8 v.addressable (omega arith) (ground arith),
    )
    | inr within ↦
        let h : offset + 8 ≤ d.capacity = ground arith in
        rw (even, within, bounds_inside d.capacity offset 8 v.addressable h, inside h)
  ]
]

pub atomic_cas_lem :
    (offset expect new : ℕ) (d : Backing)
    → IsBacking d
    → atomic_cas offset expect new d
      ≡ guarded offset d (word offset d, if word offset d == expect then stored offset new d else d)
unfolding atomic_cas
atomic_cas_lem offset expect new d v = guards offset d _ _ v λ h.
    rw (load_within offset d v h) (elim (Bool-cases (word offset d == expect)) [
      | inl same ↦ rw (same, store_within offset new d v h)
      | inr other ↦ rw other
    ])

pub atomic_faa_lem :
    (offset add : ℕ) (d : Backing)
    → IsBacking d
    → atomic_faa offset add d
      ≡ guarded offset d (word offset d, stored offset ((word offset d + add) % 2 ^ 64) d)
unfolding atomic_faa
atomic_faa_lem offset add d v =
    guards offset d _ _ v
      λ h. rw (load_within offset d v h, store_within offset ((word offset d + add) % 2 ^ 64) d v h)

-- A run of `atomic_faa` at one offset: the words that it returns, and the device that it leaves.
unfoldable pub add_all : ℕ → List ℕ → Backing → Result (List ℕ × Backing)
add_all offset [] d = ok ([], d)
add_all offset (add ∷ adds) d = do
  (old, d') ← atomic_faa offset add d
  (olds, d'') ← add_all offset adds d'
  ok (old ∷ olds, d'')

-- The values of a counter that wraps, before each addition and after the last.
abbrev pub before : ℕ → List ℕ → List ℕ
before c [] = []
before c (add ∷ adds) = c ∷ before ((c + add) % 2 ^ 64) adds

abbrev pub after : ℕ → List ℕ → ℕ
after c [] = c
after c (add ∷ adds) = after ((c + add) % 2 ^ 64) adds

pub record IsWord (offset : ℕ) (d : Backing) : Type 0 where
  pub aligned : (offset % 8 == 0) ≡ true
  pub inside : offset + 8 ≤ d.capacity

pub record Counts (offset : ℕ) (adds : List ℕ) (d : Backing) : Type 0 where
  pub end : Backing
  pub runs : add_all offset adds d ≡ ok (before (word offset d) adds, end)
  pub total : word offset end ≡ after (word offset d) adds

faa_inside :
    (offset add : ℕ) (d : Backing)
    → IsBacking d
    → IsWord offset d
    → atomic_faa offset add d ≡ ok (word offset d, stored offset ((word offset d + add) % 2 ^ 64) d)
faa_inside offset add d v w =
    let fit : ltb d.capacity (offset + 8) ≡ false = ground (arith, w.inside) in
    let whole = atomic_faa_lem offset add d v in rw (w.aligned, fit) at whole

pub stored-IsWord :
    (offset x : ℕ) (d : Backing) → IsWord offset d → IsWord offset (stored offset x d)
unfolding stored
stored-IsWord offset x d w = record { aligned = w.aligned; inside = w.inside }

-- A run of atomic additions to an aligned word within a device whose bytes fill its capacity
-- succeeds, each returns the sum of the word and the additions before it, and the word ends as
-- the sum of all, modulo 2^64.
pub add_all-Counts :
    (offset : ℕ) (adds : List ℕ) (d : Backing)
    → IsBacking d
    → IsWord offset d
    → Counts offset adds d
unfolding add_all
add_all-Counts offset [] d v w = record { end = d; runs = refl; total = refl }
add_all-Counts offset (add ∷ adds) d v w =
    let next = (word offset d + add) % 2 ^ 64 in
    let rest =
      add_all-Counts offset adds (stored offset next d) (stored-IsBacking offset next d v w.inside)
        (stored-IsWord offset next d w) in
    let e : word offset (stored offset next d) ≡ next =
      word-stored offset next d v w.inside (omega arith) in
    record {
      end = rest.end;
      runs = rw (faa_inside offset add d v w, rest.runs, e);
      total = rw e at rest.total;
    }
