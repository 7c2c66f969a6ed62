-- ===== src/Core/Buffer.antt =====
-- Slices of byte buffers, as crates/ub-core/src/device and crates/ub-control/src/message.rs take
-- them: an index out of bounds panics.
use unibus_toy.Base.{
  ℕ, zero, suc, ◌+◌, ◌-◌, ◌≤◌, ◌<◌, ◌≡◌, refl, ap, ◌∙◌, inl, inr, Bool-cases, ltb→lt, drop-append,
  take-append, Bool, true, false, ◌&&◌, List, [], ◌∷◌, ◌++◌, arith, ltb, leb, if◌then◌else◌, length,
  get_or, take, drop, length-append, length-drop,
}
use unibus_toy.Core.Error.{Result, ok, panicked}

-- `buf[from..from + len].to_vec()`
unfoldable pub slice : ℕ → ℕ → List ℕ → Result (List ℕ)
slice from len buf =
    if ltb (length buf) (from + len) then panicked else ok (take len (drop from buf))

-- `buf[from..from + src.len()].copy_from_slice(src)`
unfoldable pub splice : ℕ → List ℕ → List ℕ → Result (List ℕ)
splice from src buf =
    if ltb (length buf) (from + length src)
    then panicked
    else ok (take from buf ++ (src ++ drop (from + length src) buf))

pub slice_within :
    (from len : ℕ) (buf : List ℕ)
    → from + len ≤ length buf
    → slice from len buf ≡ ok (take len (drop from buf))
unfolding slice
slice_within from len buf h = let e : ltb (length buf) (from + len) ≡ false = ground arith in rw e

-- The buffer after a write within its bounds.
unfoldable pub overwrite : ℕ → List ℕ → List ℕ → List ℕ
overwrite from src buf = take from buf ++ (src ++ drop (from + length src) buf)

pub splice_within :
    (from : ℕ) (src buf : List ℕ)
    → from + length src ≤ length buf
    → splice from src buf ≡ ok (overwrite from src buf)
unfolding splice overwrite
splice_within from src buf h =
    let e : ltb (length buf) (from + length src) ≡ false = ground arith in rw e

length-take : (n : ℕ) (xs : List ℕ) → n ≤ length xs → length (take n xs) ≡ n
length-take zero xs h = refl
length-take (suc n) [] h = elim h [ ]
length-take (suc n) (x ∷ xs) h = ap suc (length-take n xs (omega arith))

pub length-overwrite :
    (from : ℕ) (src buf : List ℕ)
    → from + length src ≤ length buf
    → length (overwrite from src buf) ≡ length buf
unfolding overwrite
length-overwrite from src buf h =
    simp (length-append, length-drop) (omega (arith, length-take from buf (omega arith)))

get_or-append :
    (xs ys : List ℕ) (i d : ℕ)
    → get_or (xs ++ ys) i d
      ≡ (if ltb i (length xs) then get_or xs i d else get_or ys (i - length xs) d)
get_or-append [] ys i d = ground arith
get_or-append (x ∷ xs) ys zero d = ground arith
get_or-append (x ∷ xs) ys (suc i) d = get_or-append xs ys i d ∙ ground arith

get_or-take : (n : ℕ) (xs : List ℕ) (i d : ℕ) → i < n → get_or (take n xs) i d ≡ get_or xs i d
get_or-take zero xs i d h = elim h [ ]
get_or-take (suc n) [] i d h = refl
get_or-take (suc n) (x ∷ xs) zero d h = refl
get_or-take (suc n) (x ∷ xs) (suc i) d h = get_or-take n xs i d (omega arith)

get_or-drop : (n : ℕ) (xs : List ℕ) (i d : ℕ) → get_or (drop n xs) i d ≡ get_or xs (n + i) d
get_or-drop zero xs i d = let e : 0 + i ≡ i = omega arith in rw e
get_or-drop (suc n) [] i d = refl
get_or-drop (suc n) (x ∷ xs) i d =
    let e : suc n + i ≡ suc (n + i) = omega arith in rw e (get_or-drop n xs i d)

-- The index lies in the range that was written.
abbrev pub within : ℕ → ℕ → ℕ → Bool
within from len i = leb from i && ltb i (from + len)

pub get_or-overwrite :
    (from : ℕ) (src buf : List ℕ) (i d : ℕ)
    → from + length src ≤ length buf
    → get_or (overwrite from src buf) i d
      ≡ (if within from (length src) i then get_or src (i - from) d else get_or buf i d)
unfolding overwrite
get_or-overwrite from src buf i d h =
    let front = length-take from buf (omega arith) in
    elim (Bool-cases (ltb i from)) [
      | inl before ↦
          rw
            (
              get_or-append (take from buf) (src ++ drop (from + length src) buf) i d,
              get_or-take from buf i d (ltb→lt i from before),
              front,
              before,
            )
            (ground arith)
      | inr after ↦
          rw
            (
              get_or-append (take from buf) (src ++ drop (from + length src) buf) i d,
              front,
              after,
              get_or-append src (drop (from + length src) buf) (i - from) d,
              get_or-drop (from + length src) buf (i - from - length src) d,
            )
            (elim (Bool-cases (ltb (i - from) (length src))) [
              | inl inside ↦
                  let e : within from (length src) i ≡ true = ground arith in rw (inside, e)
              | inr behind ↦
                  let e : within from (length src) i ≡ false = ground arith in
                  let k : from + length src + (i - from - length src) ≡ i = ground arith in
                  rw (behind, e, k)
            ])
    ]

pub slice-overwrite :
    (from : ℕ) (src buf : List ℕ)
    → from + length src ≤ length buf
    → slice from (length src) (overwrite from src buf) ≡ ok src
unfolding overwrite
slice-overwrite from src buf h =
    let rest = drop (from + length src) buf in
    let front = length-take from buf (omega arith) in
    let behind = drop-append (take from buf) (src ++ rest) in
    let back : drop from (overwrite from src buf) ≡ src ++ rest = rw front at behind in
    slice_within from (length src) (overwrite from src buf)
      (omega (arith, length-overwrite from src buf h))
    ∙ rw (back, take-append src rest)
