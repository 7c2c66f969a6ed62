-- ===== src/Wire/Codec/Rejection.antt =====
-- The decoder of crates/ub-wire/src/codec.rs on bytes that nobody encoded.
use unibus_toy.Base.{
  ℕ, ◌+◌, ◌≤◌, ◌<◌, ◌≡◌, refl, inl, inr, Bool, true, false, Option, none, some, List, arith, ltb,
  leb, ◌==◌, ==_iff, Bool-cases, Option-cases, length, drop, length-drop,
}
use unibus_toy.Base.Bits.{and_127}
use unibus_toy.Core.Error.{UbError, Result, ok, err, panicked, guard, ◌>>=◌}
use unibus_toy.Core.Verb
use unibus_toy.Wire.Frame
use unibus_toy.Wire.Frame.{
  FrameHeader, DataExtHeader, FrameType, data_frame, magic_word, wire_version, contains_has_imm,
  truncate_flags,
}
use unibus_toy.Wire.Codec.{
  read_exact, read_be, slice_from, ok_or, read_imm, decode_data_ext_header, read_header, ext_size,
  read_ext, decode_frame,
}

-- The call does not panic, and a value that it returns satisfies `P`.
abbrev pub Returns {ℓ} : {A : Type ℓ} → (A → Type 0) → Result A → Type 0
Returns P (ok a) = P a
Returns P (err e) = Unit
Returns P panicked = ⊥

pub bind {ℓ κ} :
    {A : Type ℓ} {B : Type κ} (P : A → Type 0) (Q : B → Type 0) (m : Result A) (f : A → Result B)
    → Returns P m
    → ((a : A) → P a → Returns Q (f a))
    → Returns Q (m >>= f)
bind P Q (ok a) f h k = k a h
bind P Q (err e) f h k = tt
bind P Q panicked f h k = elim h [ ]

abbrev Left {ℓ} : {A : Type ℓ} → ℕ → List ℕ → A × List ℕ → Type 0
Left n buf p = length p.1 + n ≡ length buf

ltb→le : (n : ℕ) (buf : List ℕ) → ltb (length buf) n ≡ false → n ≤ length buf
ltb→le n buf h = ground arith

read_be-Returns : (n : ℕ) (buf : List ℕ) → Returns (Left n buf) (read_be n buf)
unfolding read_be
read_be-Returns n buf = elim (Bool-cases (ltb (length buf) n)) [
  | inl short ↦ rw short tt
  | inr long ↦ rw long (omega (arith, ltb→le n buf long, length-drop n buf))
]

read_exact-Returns : (n : ℕ) (buf : List ℕ) → Returns (Left n buf) (read_exact n buf)
unfolding read_exact
read_exact-Returns n buf = elim (Bool-cases (ltb (length buf) n)) [
  | inl short ↦ rw short tt
  | inr long ↦ rw long (omega (arith, ltb→le n buf long, length-drop n buf))
]

ok_or-Returns {ℓ} : {A : Type ℓ} (o : Option A) (e : UbError) → Returns (λ a. Unit {0}) (ok_or o e)
ok_or-Returns none e = tt
ok_or-Returns (some a) e = tt

guard-Returns : (b : Bool) (e : UbError) → Returns (λ u. b ≡ true) (guard b e)
guard-Returns true e = refl
guard-Returns false e = tt

-- The bytes that the immediate takes.
abbrev imm_size : Option ℕ → ℕ
imm_size none = 0
imm_size (some imm) = 8

read_imm-Returns :
    (flags : ℕ) (cur : List ℕ) → Returns (λ m. imm_size m ≤ length cur) (read_imm flags cur)
unfolding read_imm
read_imm-Returns flags cur = elim (Bool-cases (contains_has_imm flags)) [
  | inl there ↦ rw there (
      bind (Left 8 cur) (λ m. imm_size m ≤ length cur) (read_be 8 cur) _ (read_be-Returns 8 cur)
        (λ p e. omega arith))
  | inr absent ↦ rw absent (omega arith)
]

-- A number read off the front, and the rest of the read under the length that is left.
number {ℓ} :
    {B : Type ℓ} (Q : B → Type 0) (n : ℕ) (cur : List ℕ) (f : ℕ × List ℕ → Result B)
    → ((p : ℕ × List ℕ) → length p.1 + n ≡ length cur → Returns Q (f p))
    → Returns Q (read_be n cur >>= f)
number Q n cur f k = bind (Left n cur) Q (read_be n cur) f (read_be-Returns n cur) k

ext_size_eq : (x : DataExtHeader) → ext_size (some x) ≡ 48 + imm_size x.imm
unfolding ext_size
ext_size_eq x = elim (Option-cases x.imm) [ inl e ↦ rw e | inr (imm, e) ↦ rw e ]

-- An extension header that is accepted lies within the buffer.
decode_ext-Returns :
    (buf : List ℕ) → Returns (λ x. 48 + imm_size x.imm ≤ length buf) (decode_data_ext_header buf)
unfolding decode_data_ext_header
decode_ext-Returns buf =
    let Fits : DataExtHeader → Type 0 = λ x. 48 + imm_size x.imm ≤ length buf in
    bind _ Fits (guard (leb 48 (length buf)) _) _ (guard-Returns _ _) λ _ long.
      number Fits 1 buf _ λ p e1.
        bind _ Fits (ok_or (Verb.from_u8 p.0) _) _ (ok_or-Returns _ _) λ verb _.
          number Fits 1 p.1 _ λ p2 e2. number Fits 2 p2.1 _ λ p3 e3. number Fits 4 p3.1 _ λ p4 e4.
            number Fits 4 p4.1 _ λ p5 e5. number Fits 4 p5.1 _ λ p6 e6.
              number Fits 8 p6.1 _ λ p7 e7. number Fits 4 p7.1 _ λ p8 e8.
                number Fits 2 p8.1 _ λ p9 e9. number Fits 2 p9.1 _ λ p10 e10.
                  bind (Left 16 p10.1) Fits (read_exact 16 p10.1) _ (read_exact-Returns 16 p10.1)
                    λ p11 e11.
                      bind _ Fits (read_imm _ p11.1) _ (read_imm-Returns _ p11.1)
                        λ m e12. omega arith

read_header-Returns :
    (buf : List ℕ)
    → Returns
        (λ h.
          (h.magic ≡ magic_word) × (h.version ≡ wire_version) × (h.flags < 128) × (32 ≤ length buf))
        (read_header buf)
unfolding read_header truncate_flags
read_header-Returns buf =
    let Good : FrameHeader → Type 0 = λ h.
      (h.magic ≡ magic_word) × (h.version ≡ wire_version) × (h.flags < 128) × (32 ≤ length buf) in
    bind _ Good (guard (leb 32 (length buf)) _) _ (guard-Returns _ _) λ _ long.
      number Good 4 buf _ λ p1 _.
        bind _ Good (guard (p1.0 == magic_word) _) _ (guard-Returns _ _) λ _ magic.
          number Good 1 p1.1 _ λ p2 _.
            bind _ Good (guard (p2.0 == wire_version) _) _ (guard-Returns _ _) λ _ version.
              number Good 1 p2.1 _ λ p3 _.
                bind _ Good (ok_or (Frame.from_u8 p3.0) _) _ (ok_or-Returns _ _) λ frame_type _.
                  number Good 2 p3.1 _ λ p4 _. number Good 2 p4.1 _ λ p5 _.
                    number Good 2 p5.1 _ λ p6 _. number Good 4 p6.1 _ λ p7 _.
                      number Good 8 p7.1 _ λ p8 _. number Good 4 p8.1 _ λ p9 _.
                        number Good 4 p9.1 _ λ p10 _. (
                          (==_iff p1.0 magic_word).0 magic,
                          (==_iff p2.0 wire_version).0 version,
                          omega (arith, and_127 p4.0),
                          ground arith,
                        )

abbrev pub is_data : FrameType → Bool
is_data data_frame = true
is_data Frame.ack_frame = false
is_data Frame.credit_frame = false

abbrev pub is_some {ℓ} : {A : Type ℓ} → Option A → Bool
is_some none = false
is_some (some a) = true

-- What is known of a frame that was accepted: its magic and version, that no undeclared flag is
-- left, that there is an extension header exactly on data frames, that header, extension header
-- and payload account for every byte, and that the payload is the bytes behind the headers.
pub record IsAccepted (buf : List ℕ) (r : FrameHeader × Option DataExtHeader × List ℕ)
    : Type 0 where
  pub magic : r.0.magic ≡ magic_word
  pub version : r.0.version ≡ wire_version
  pub flags : r.0.flags < 128
  pub ext_iff : is_data r.0.frame_type ≡ is_some r.1
  pub all_bytes : length buf ≡ 32 + ext_size r.1 + length r.2
  pub payload : r.2 ≡ drop (32 + ext_size r.1) buf

slice-Returns :
    (n : ℕ) (buf : List ℕ)
    → n ≤ length buf
    → Returns (λ rest. (length rest + n ≡ length buf) × (rest ≡ drop n buf)) (slice_from n buf)
unfolding slice_from
slice-Returns n buf h =
    let long : ltb (length buf) n ≡ false = ground arith in
    rw long (omega (arith, length-drop n buf), refl)

read_ext-Returns :
    (t : FrameType) (rest : List ℕ)
    → Returns (λ x. (ext_size x ≤ length rest) × (is_data t ≡ is_some x)) (read_ext t rest)
unfolding read_ext
read_ext-Returns data_frame rest =
    bind _ (λ x. (ext_size x ≤ length rest) × (true ≡ is_some x)) (decode_data_ext_header rest) _
      (decode_ext-Returns rest) (λ x e. (omega (arith, ext_size_eq x), refl))
read_ext-Returns Frame.ack_frame rest = (unfold ext_size in omega arith, refl)
read_ext-Returns Frame.credit_frame rest = (unfold ext_size in omega arith, refl)

-- On any bytes at all the decoder returns an error or a frame, and takes no slice out of bounds.
-- A frame is returned only where the buffer holds its headers, the magic word and the version
-- are right, a data frame has its extension header and no other frame has one, and the payload
-- is what is left behind the headers.
pub decode_frame_accepts : (buf : List ℕ) → Returns (IsAccepted buf) (decode_frame buf)
unfolding decode_frame
decode_frame_accepts buf =
    bind _ (IsAccepted buf) (read_header buf) _ (read_header-Returns buf) λ h good.
      bind _ (IsAccepted buf) (slice_from 32 buf) _ (slice-Returns 32 buf good.3) λ rest e.
        bind _ (IsAccepted buf) (read_ext h.frame_type rest) _ (read_ext-Returns h.frame_type rest)
          λ ext fits.
            bind _ (IsAccepted buf) (slice_from (32 + ext_size ext) buf) _
              (slice-Returns (32 + ext_size ext) buf (omega (arith, fits.0, e.0)))
              λ payload left. record {
                magic = good.0;
                version = good.1;
                flags = good.2;
                ext_iff = fits.1;
                all_bytes = omega (arith, left.0);
                payload = left.1;
              }
