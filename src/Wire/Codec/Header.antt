-- ===== src/Wire/Codec/Header.antt =====
-- The base header (crates/ub-wire/src/codec.rs) there and back.
use unibus_toy.Base.{
  ℕ, ◌^◌, ◌<◌, bit_and, ◌≡◌, ◌∙◌, true, List, ◌++◌, arith, leb, ◌==◌, length, length-append,
}
use mathlib.Core.List.{append_assoc}
use unibus_toy.Base.Bits.{and_127}
use unibus_toy.Core.Error.{ok}
use unibus_toy.Core.Bytes.{length-be_bytes}
use unibus_toy.Wire.Frame
use unibus_toy.Wire.Frame.{
  FrameHeader, DataExtHeader, AckPayload, CreditPayload, FrameType, data_frame, ack_frame,
  credit_frame, magic_word, wire_version, truncate_flags, truncate_ext_flags, contains_has_imm,
}
use unibus_toy.Wire.Codec.{encode_header, read_header}
use unibus_toy.Wire.Codec.Reading.{read_be-append}

pub frame_type_fits : (t : FrameType) → Frame.to_u8 t < 256 ^ 1
unfolding Frame.to_u8
frame_type_fits data_frame = omega arith
frame_type_fits _ = omega arith

-- The headers that a frame of this version can carry: each field fits its width.
pub record IsHeader (h : FrameHeader) : Type 0 where
  pub magic : h.magic ≡ magic_word
  pub version : h.version ≡ wire_version
  pub flags : h.flags < 128
  pub src_node : h.src_node < 2 ^ 16
  pub dst_node : h.dst_node < 2 ^ 16
  pub reserved : h.reserved < 2 ^ 32
  pub stream_seq : h.stream_seq < 2 ^ 64
  pub payload_len : h.payload_len < 2 ^ 32
  pub header_crc : h.header_crc < 2 ^ 32

pub length-encode_header : (h : FrameHeader) → length (encode_header h) ≡ 32
unfolding encode_header
length-encode_header h = simp (length-append, length-be_bytes)

pub read_header-encode_header :
    (h : FrameHeader) (rest : List ℕ) → IsHeader h → read_header (encode_header h ++ rest) ≡ ok h
unfolding read_header encode_header truncate_flags
read_header-encode_header h rest v =
    let is_magic : (h.magic == magic_word) ≡ true = ground arith in
    let is_version : (h.version == wire_version) ≡ true = ground arith in
    let flags_kept : bit_and h.flags 127 ≡ h.flags = and_127 h.flags ∙ omega (arith, v.flags) in
    let long : leb 32 (length (encode_header h ++ rest)) ≡ true =
      ground (arith, length-append (encode_header h) rest, length-encode_header h) in
    rw long (
      simp (
        append_assoc,
        λ (r : List ℕ). read_be-append 4 h.magic r (omega (arith, v.magic)),
        λ (r : List ℕ). read_be-append 1 h.version r (omega (arith, v.version)),
        λ (r : List ℕ).
            read_be-append 1 (Frame.to_u8 h.frame_type) r (frame_type_fits h.frame_type),
        Frame.from_u8-to_u8,
        λ (r : List ℕ). read_be-append 2 h.flags r (omega (arith, v.flags)),
        λ (r : List ℕ). read_be-append 2 h.src_node r v.src_node,
        λ (r : List ℕ). read_be-append 2 h.dst_node r v.dst_node,
        λ (r : List ℕ). read_be-append 4 h.reserved r v.reserved,
        λ (r : List ℕ). read_be-append 8 h.stream_seq r v.stream_seq,
        λ (r : List ℕ). read_be-append 4 h.payload_len r v.payload_len,
        λ (r : List ℕ). read_be-append 4 h.header_crc r v.header_crc,
        is_magic,
        is_version,
        flags_kept,
      ))
