-- ===== src/Control/Cursor.antt =====
-- The cursors of crates/ub-control/src/message.rs: fields of fixed size, and byte vectors and texts
-- behind their lengths. A `String` is the list of its bytes, which are UTF-8.
use unibus_toy.Base.{
  ℕ, zero, suc, ◌^◌, ◌<◌, ◌≡◌, refl, Bool, true, false, ◌&&◌, List, [], ◌∷◌, ◌++◌, arith, ltb, leb,
  length, if◌then◌else◌,
}
use mathlib.Core.List.{append_assoc}
use unibus_toy.Core.Error.{Result, ok, err, internal, invalid_text, ◌>>=◌}
use unibus_toy.Core.Bytes.{be_bytes, Fits}
use unibus_toy.Core.Addr
use unibus_toy.Core.Addr.Fields.{from_bytes-to_bytes}
use unibus_toy.Wire.Codec.{read_be, read_exact}
use unibus_toy.Wire.Codec.Reading.{read_be-append, read_exact-append}

-- `b` is a continuation byte, the first one between `lo` and `hi`.
within : ℕ → ℕ → ℕ → Bool
within lo hi b = leb lo b && leb b hi

-- The test of `String::from_utf8`: `left` continuation bytes are due, the next in `lo`..`hi`.
unfoldable pub utf8_from : ℕ → ℕ → ℕ → List ℕ → Bool
unfolding within
utf8_from zero lo hi [] = true
utf8_from (suc left) lo hi [] = false
utf8_from (suc left) lo hi (b ∷ bs) = within lo hi b && utf8_from left 0x80 0xBF bs
utf8_from zero lo hi (b ∷ bs) =
    let one = utf8_from 0 0x80 0xBF bs in
    let two = utf8_from 1 0x80 0xBF bs in
    let three = utf8_from 2 0x80 0xBF bs in
    let four = utf8_from 3 0x80 0xBF bs in
    let three_E0 = utf8_from 2 0xA0 0xBF bs in
    let three_ED = utf8_from 2 0x80 0x9F bs in
    let four_F0 = utf8_from 3 0x90 0xBF bs in
    let four_F4 = utf8_from 3 0x80 0x8F bs in
    if ltb b 0x80
    then one
    else if ltb b 0xC2
    then false
    else if ltb b 0xE0
    then two
    else if ltb b 0xE1
    then three_E0
    else if ltb b 0xED
    then three
    else if ltb b 0xEE
    then three_ED
    else if ltb b 0xF0
    then three
    else if ltb b 0xF1
    then four_F0
    else if ltb b 0xF4
    then four
    else if ltb b 0xF5
    then four_F4
    else false

unfoldable pub is_utf8 : List ℕ → Bool
is_utf8 bs = utf8_from 0 0x80 0xBF bs

-- `put_u32(bytes.len() as u32)` and `put_slice(bytes)`
unfoldable pub encode_bytes : List ℕ → List ℕ
encode_bytes bs = be_bytes 4 (length bs) ++ bs

unfoldable pub read_bytes : List ℕ → Result (List ℕ × List ℕ)
read_bytes cur = do (len, cur) ← read_be 4 cur; read_exact len cur

unfoldable pub read_text : List ℕ → Result (List ℕ × List ℕ)
read_text cur = do
  (buf, cur) ← read_bytes cur
  if is_utf8 buf then ok (buf, cur) else err (internal invalid_text)

-- A `String` whose length fits the field that announces it.
pub record IsText (s : List ℕ) : Type 0 where
  pub short : Fits 4 (length s)
  pub utf8 : is_utf8 s ≡ true

pub reads : {n v : ℕ} → Fits n v → (rest : List ℕ) → read_be n (be_bytes n v ++ rest) ≡ ok (v, rest)
reads {n} {v} h rest = read_be-append n v rest h.below

pub read_exact-to_bytes :
    {a : ℕ}
    → a < 2 ^ 128
    → (rest : List ℕ) → read_exact 16 (Addr.to_bytes a ++ rest) ≡ ok (Addr.to_bytes a, rest)
read_exact-to_bytes {a} h rest =
    read_exact-append 16 (Addr.to_bytes a) rest (from_bytes-to_bytes a h).1

pub perms-Fits : {perms : ℕ} → perms < 8 → Fits 1 perms
perms-Fits h = record { below = omega arith }

pub read_bytes-encode :
    {bs : List ℕ}
    → Fits 4 (length bs)
    → (rest : List ℕ) → read_bytes (encode_bytes bs ++ rest) ≡ ok (bs, rest)
unfolding read_bytes encode_bytes
read_bytes-encode {bs} h rest =
    simp (append_assoc, reads h, λ (r : List ℕ). read_exact-append (length bs) bs r refl)

pub read_text-encode :
    {s : List ℕ} → IsText s → (rest : List ℕ) → read_text (encode_bytes s ++ rest) ≡ ok (s, rest)
unfolding read_text
read_text-encode h rest = simp (read_bytes-encode h.short, h.utf8)
