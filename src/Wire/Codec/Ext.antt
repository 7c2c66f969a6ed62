-- ===== src/Wire/Codec/Ext.antt =====
-- The extension header of a data frame (crates/ub-wire/src/codec.rs) there and back.
use unibus_toy.Base.{
  ℕ, ◌^◌, ◌<◌, bit_and, ◌≡◌, refl, ◌∙◌, inl, inr, Bool, true, false, Option, none, some, List, ◌++◌,
  arith, leb, Option-cases, length, length-append,
}
use mathlib.Core.List.{append_assoc}
use unibus_toy.Base.Bits.{and_7}
use unibus_toy.Core.Error.{ok}
use unibus_toy.Core.Bytes.{length-be_bytes}
use unibus_toy.Core.Addr
use unibus_toy.Core.Addr.Fields.{from_bytes-to_bytes}
use unibus_toy.Core.Verb
use unibus_toy.Wire.Frame.{DataExtHeader, truncate_ext_flags, contains_has_imm}
use unibus_toy.Wire.Codec.{encode_imm, encode_ext, read_imm, decode_data_ext_header, ext_size}
use unibus_toy.Wire.Codec.Reading.{read_exact-append, read_be-append}

abbrev pub is_some {ℓ} : {A : Type ℓ} → Option A → Bool
is_some none = false
is_some (some a) = true

abbrev pub ImmFits : Option ℕ → Type 0
ImmFits none = Unit
ImmFits (some imm) = imm < 2 ^ 64

-- The extension headers that a data frame can carry: each field fits its width, and the flag
-- `HAS_IMM` is set exactly when there is an immediate.
pub record IsExt (x : DataExtHeader) : Type 0 where
  pub ext_flags : x.ext_flags < 8
  pub mr_handle : x.mr_handle < 2 ^ 32
  pub jetty_src : x.jetty_src < 2 ^ 32
  pub jetty_dst : x.jetty_dst < 2 ^ 32
  pub opaque : x.opaque < 2 ^ 64
  pub frag_id : x.frag_id < 2 ^ 32
  pub frag_index : x.frag_index < 2 ^ 16
  pub frag_total : x.frag_total < 2 ^ 16
  pub ub_addr : x.ub_addr < 2 ^ 128
  pub imm_flag : contains_has_imm x.ext_flags ≡ is_some x.imm
  pub imm_fits : ImmFits x.imm

pub read_imm-encode_imm :
    (flags : ℕ) (m : Option ℕ) (rest : List ℕ)
    → contains_has_imm flags ≡ is_some m
    → ImmFits m
    → read_imm flags (encode_imm m ++ rest) ≡ ok m
unfolding read_imm encode_imm
read_imm-encode_imm flags none rest e h = rw e
read_imm-encode_imm flags (some imm) rest e h = rw (e, read_be-append 8 imm rest h)

pub verb_fits : (v : Verb.Verb) → Verb.to_u8 v < 256 ^ 1
unfolding Verb.to_u8
verb_fits Verb.read_req = omega arith
verb_fits _ = omega arith

abbrev pub imm_size : Option ℕ → ℕ
imm_size none = 0
imm_size (some imm) = 8

pub length-encode_imm : (m : Option ℕ) → length (encode_imm m) ≡ imm_size m
unfolding encode_imm
length-encode_imm none = refl
length-encode_imm (some imm) = length-be_bytes 8 imm

pub length-encode_ext :
    (x : DataExtHeader) → x.ub_addr < 2 ^ 128 → length (encode_ext x) ≡ ext_size (some x)
unfolding encode_ext ext_size
length-encode_ext x h =
    simp (length-append, length-be_bytes, length-encode_imm, (from_bytes-to_bytes x.ub_addr h).1)
      (elim (Option-cases x.imm) [ inl e ↦ rw e | inr (imm, e) ↦ rw e ])

pub ext_long :
    (x : DataExtHeader) (rest : List ℕ)
    → x.ub_addr < 2 ^ 128
    → leb 48 (length (encode_ext x ++ rest)) ≡ true
unfolding ext_size
ext_long x rest h = elim (Option-cases x.imm) [
  | inl e ↦ ground (arith, length-append (encode_ext x) rest, length-encode_ext x h)
  | inr (imm, e) ↦ ground (arith, length-append (encode_ext x) rest, length-encode_ext x h)
]

pub decode_ext-encode_ext :
    (x : DataExtHeader) (rest : List ℕ)
    → IsExt x
    → decode_data_ext_header (encode_ext x ++ rest) ≡ ok x
unfolding decode_data_ext_header encode_ext truncate_ext_flags
decode_ext-encode_ext x rest v =
    let (addr_back, addr_size) = from_bytes-to_bytes x.ub_addr v.ub_addr in
    let flags_kept : bit_and x.ext_flags 7 ≡ x.ext_flags =
      and_7 x.ext_flags ∙ omega (arith, v.ext_flags) in
    let long : leb 48 (length (encode_ext x ++ rest)) ≡ true = ext_long x rest v.ub_addr in
    rw long (
      simp (
        append_assoc,
        λ (r : List ℕ). read_be-append 1 (Verb.to_u8 x.verb) r (verb_fits x.verb),
        Verb.from_u8-to_u8,
        λ (r : List ℕ). read_be-append 1 x.ext_flags r (omega (arith, v.ext_flags)),
        λ (r : List ℕ). read_be-append 2 0 r (omega arith),
        λ (r : List ℕ). read_be-append 4 x.mr_handle r v.mr_handle,
        λ (r : List ℕ). read_be-append 4 x.jetty_src r v.jetty_src,
        λ (r : List ℕ). read_be-append 4 x.jetty_dst r v.jetty_dst,
        λ (r : List ℕ). read_be-append 8 x.opaque r v.opaque,
        λ (r : List ℕ). read_be-append 4 x.frag_id r v.frag_id,
        λ (r : List ℕ). read_be-append 2 x.frag_index r v.frag_index,
        λ (r : List ℕ). read_be-append 2 x.frag_total r v.frag_total,
        λ (r : List ℕ). read_exact-append 16 (Addr.to_bytes x.ub_addr) r addr_size,
        addr_back,
        flags_kept,
        read_imm-encode_imm x.ext_flags x.imm rest v.imm_flag v.imm_fits,
      ))
