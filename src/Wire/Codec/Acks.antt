-- ===== src/Wire/Codec/Acks.antt =====
-- The payloads of ACK and CREDIT frames (crates/ub-wire/src/codec.rs) there and back.
use unibus_toy.Base.{
  ℕ, ◌+◌, ◌^◌, ◌<◌, ◌≡◌, refl, Bool, true, false, Option, none, some, List, [], ◌++◌, arith, leb,
  length, length-append,
}
use mathlib.Core.List.{append_assoc, append-nil}
use unibus_toy.Core.Error.{ok}
use unibus_toy.Core.Bytes.{length-be_bytes}
use unibus_toy.Wire.Frame.{AckPayload, CreditPayload}
use unibus_toy.Wire.Codec.{
  read_exact, encode_bitmap, encode_ack_payload, read_sack, decode_ack_payload,
  encode_credit_payload, decode_credit_payload,
}
use unibus_toy.Wire.Codec.Reading.{read_exact-append, read_be-append}

-- The bitmap of an ACK has 32 bytes, and is there when the frame's flag says so.
abbrev pub SackMatches : Bool → Option (List ℕ) → Type 0
SackMatches false none = Unit
SackMatches false (some bitmap) = ⊥
SackMatches true none = ⊥
SackMatches true (some bitmap) = length bitmap ≡ 32

read_sack-encode :
    (has_sack : Bool) (bitmap : Option (List ℕ)) (buf : List ℕ)
    → SackMatches has_sack bitmap
    → length buf ≡ 16 + length (encode_bitmap bitmap)
    → read_sack has_sack buf (encode_bitmap bitmap) ≡ ok bitmap
unfolding read_sack encode_bitmap
read_sack-encode false none buf m e = refl
read_sack-encode false (some bitmap) buf m e = absurd m
read_sack-encode true none buf m e = absurd m
read_sack-encode true (some bitmap) buf m e =
    let long : leb 48 (length buf) ≡ true = ground arith in
    let read : read_exact 32 bitmap ≡ ok (bitmap, []) =
      rw append-nil at (read_exact-append 32 bitmap [] m) in
    rw (long, read)

-- Decoding the bytes of an ACK whose fields fit their widths, with a bitmap of 32 bytes exactly
-- when the decoder is told that there is one, gives the ACK back.
pub decode_ack-encode_ack :
    (a : AckPayload) (has_sack : Bool)
    → a.ack_seq < 2 ^ 64
    → a.credit_grant < 2 ^ 32
    → a.reserved < 2 ^ 32
    → SackMatches has_sack a.sack_bitmap
    → decode_ack_payload (encode_ack_payload a) has_sack ≡ ok a
unfolding decode_ack_payload encode_ack_payload
decode_ack-encode_ack a has_sack hs hc hr m =
    let bits = encode_bitmap a.sack_bitmap in
    let size : length (encode_ack_payload a) ≡ 16 + length bits =
      simp (length-append, length-be_bytes) (omega arith) in
    let long : leb 16 (length (encode_ack_payload a)) ≡ true = ground arith in
    rw long (
      simp (
        λ (r : List ℕ). read_be-append 8 a.ack_seq r hs,
        λ (r : List ℕ). read_be-append 4 a.credit_grant r hc,
        λ (r : List ℕ). read_be-append 4 a.reserved r hr,
        read_sack-encode has_sack a.sack_bitmap (encode_ack_payload a) m size,
      ))

-- Decoding the bytes of a CREDIT payload whose fields fit their widths gives it back, whatever
-- follows them.
pub decode_credit-encode_credit :
    (c : CreditPayload) (rest : List ℕ)
    → c.credits < 2 ^ 32
    → c.reserved < 2 ^ 32
    → decode_credit_payload (encode_credit_payload c ++ rest) ≡ ok c
unfolding decode_credit_payload encode_credit_payload
decode_credit-encode_credit c rest hc hr =
    let size : length (encode_credit_payload c ++ rest) ≡ 8 + length rest =
      simp (length-append, length-be_bytes) (omega arith) in
    let long : leb 8 (length (encode_credit_payload c ++ rest)) ≡ true = ground arith in
    rw long (
      simp (
        append_assoc,
        λ (r : List ℕ). read_be-append 4 c.credits r hc,
        λ (r : List ℕ). read_be-append 4 c.reserved r hr,
      ))
