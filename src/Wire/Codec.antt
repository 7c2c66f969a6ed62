-- ===== src/Wire/Codec.antt =====
-- crates/ub-wire/src/codec.rs: frames to bytes and back. A buffer is the list of its bytes, and a
-- cursor the list of those not yet read. The codec formats each error as a text; `Report` names it.
pub mod Reading
pub mod Header
pub mod Ext
pub mod RoundTrip
pub mod Acks
pub mod Rejection
use unibus_toy.Base.{
  ℕ, ◌+◌, ◌==◌, Bool, true, false, not, Option, none, some, List, [], ◌∷◌, ◌++◌, ltb, leb,
  if◌then◌else◌, length, take, drop,
}
use unibus_toy.Core.Error.{
  UbError, Result, ok, err, panicked, internal, guard, ◌>>=◌, ◌>>◌, frame_too_short, ext_too_short,
  ack_too_short, sack_too_short, credit_too_short, unexpected_eof, invalid_magic, version_mismatch,
  unknown_frame_type, unknown_verb,
}
use unibus_toy.Core.Bytes.{be_bytes, from_be}
use unibus_toy.Core.Addr
use unibus_toy.Core.Verb
use unibus_toy.Core.Verb.{Verb}
use unibus_toy.Wire.Frame
use unibus_toy.Wire.Frame.{
  FrameHeader, DataExtHeader, AckPayload, CreditPayload, FrameType, data_frame, ack_frame,
  credit_frame, magic_word, wire_version, frame_header_size, data_ext_header_size,
  data_ext_header_imm_size, truncate_flags, truncate_ext_flags, contains_has_imm,
}

-- `cur.read_u8` … `cur.read_u64` and `cur.read_exact`, which fail at the end of the buffer.
unfoldable pub read_exact : ℕ → List ℕ → Result (List ℕ × List ℕ)
read_exact n cur =
    if ltb (length cur) n then err (internal unexpected_eof) else ok (take n cur, drop n cur)

unfoldable pub read_be : ℕ → List ℕ → Result (ℕ × List ℕ)
read_be n cur =
    if ltb (length cur) n
    then err (internal unexpected_eof)
    else ok (from_be 0 (take n cur), drop n cur)

-- `&buf[n..]`
unfoldable pub slice_from : ℕ → List ℕ → Result (List ℕ)
slice_from n buf = if ltb (length buf) n then panicked else ok (drop n buf)

-- `x.ok_or_else(|| e)`
abbrev pub ok_or {ℓ} : {A : Type ℓ} → Option A → UbError → Result A
ok_or (some a) e = ok a
ok_or none e = err e

unfoldable pub encode_imm : Option ℕ → List ℕ
encode_imm none = []
encode_imm (some imm) = be_bytes 8 imm

unfoldable pub encode_header : FrameHeader → List ℕ
encode_header h =
    be_bytes 4 h.magic
    ++ (be_bytes 1 h.version
        ++ (be_bytes 1 (Frame.to_u8 h.frame_type)
            ++ (be_bytes 2 h.flags
                ++ (be_bytes 2 h.src_node
                    ++ (be_bytes 2 h.dst_node
                        ++ (be_bytes 4 h.reserved
                            ++ (be_bytes 8 h.stream_seq
                                ++ (be_bytes 4 h.payload_len ++ be_bytes 4 h.header_crc))))))))

unfoldable pub encode_ext : DataExtHeader → List ℕ
encode_ext x =
    be_bytes 1 (Verb.to_u8 x.verb)
    ++ (be_bytes 1 x.ext_flags
        ++ (be_bytes 2 0
            ++ (be_bytes 4 x.mr_handle
                ++ (be_bytes 4 x.jetty_src
                    ++ (be_bytes 4 x.jetty_dst
                        ++ (be_bytes 8 x.opaque
                            ++ (be_bytes 4 x.frag_id
                                ++ (be_bytes 2 x.frag_index
                                    ++ (be_bytes 2 x.frag_total
                                        ++ (Addr.to_bytes x.ub_addr ++ encode_imm x.imm))))))))))

unfoldable pub encode_frame : FrameHeader → Option DataExtHeader → List ℕ → List ℕ
encode_frame h none payload = encode_header h ++ payload
encode_frame h (some x) payload = encode_header h ++ (encode_ext x ++ payload)

-- The last field of the extension header, which is there when its flag says so.
unfoldable pub read_imm : ℕ → List ℕ → Result (Option ℕ)
read_imm ext_flags cur =
    if contains_has_imm ext_flags then (do (imm, _) ← read_be 8 cur; ok (some imm)) else ok none

unfoldable pub decode_data_ext_header : List ℕ → Result DataExtHeader
decode_data_ext_header buf = do
  guard (leb data_ext_header_size (length buf)) (internal ext_too_short)
  (verb_u8, cur) ← read_be 1 buf
  verb ← ok_or (Verb.from_u8 verb_u8) (internal (unknown_verb verb_u8))
  (ext_flags_u8, cur) ← read_be 1 cur
  let ext_flags = truncate_ext_flags ext_flags_u8
  (_, cur) ← read_be 2 cur
  (mr_handle, cur) ← read_be 4 cur
  (jetty_src, cur) ← read_be 4 cur
  (jetty_dst, cur) ← read_be 4 cur
  (opaque, cur) ← read_be 8 cur
  (frag_id, cur) ← read_be 4 cur
  (frag_index, cur) ← read_be 2 cur
  (frag_total, cur) ← read_be 2 cur
  (addr_bytes, cur) ← read_exact 16 cur
  imm ← read_imm ext_flags cur
  ok (record {
    verb = verb;
    ext_flags = ext_flags;
    mr_handle = mr_handle;
    jetty_src = jetty_src;
    jetty_dst = jetty_dst;
    opaque = opaque;
    frag_id = frag_id;
    frag_index = frag_index;
    frag_total = frag_total;
    ub_addr = Addr.from_bytes addr_bytes;
    imm = imm;
  })

unfoldable pub read_header : List ℕ → Result FrameHeader
read_header buf = do
  guard (leb frame_header_size (length buf)) (internal frame_too_short)
  (magic, cur) ← read_be 4 buf
  guard (magic == magic_word) (internal (invalid_magic magic))
  (version, cur) ← read_be 1 cur
  guard (version == wire_version) (internal (version_mismatch version))
  (frame_type_u8, cur) ← read_be 1 cur
  frame_type ← ok_or (Frame.from_u8 frame_type_u8) (internal (unknown_frame_type frame_type_u8))
  (flags_u16, cur) ← read_be 2 cur
  (src_node, cur) ← read_be 2 cur
  (dst_node, cur) ← read_be 2 cur
  (reserved, cur) ← read_be 4 cur
  (stream_seq, cur) ← read_be 8 cur
  (payload_len, cur) ← read_be 4 cur
  (header_crc, cur) ← read_be 4 cur
  ok (record {
    magic = magic;
    version = version;
    frame_type = frame_type;
    flags = truncate_flags flags_u16;
    src_node = src_node;
    dst_node = dst_node;
    reserved = reserved;
    stream_seq = stream_seq;
    payload_len = payload_len;
    header_crc = header_crc;
  })

unfoldable pub ext_size : Option DataExtHeader → ℕ
ext_size none = 0
ext_size (some x) = elim x.imm [ none ↦ data_ext_header_size | some _ ↦ data_ext_header_imm_size ]

-- The extension header is read on data frames only.
unfoldable pub read_ext : FrameType → List ℕ → Result (Option DataExtHeader)
read_ext data_frame rest = do x ← decode_data_ext_header rest; ok (some x)
read_ext _ rest = ok none

unfoldable pub decode_frame : List ℕ → Result (FrameHeader × Option DataExtHeader × List ℕ)
decode_frame buf = do
  header ← read_header buf
  rest ← slice_from frame_header_size buf
  ext ← read_ext header.frame_type rest
  payload ← slice_from (frame_header_size + ext_size ext) buf
  ok (header, ext, payload)

unfoldable pub encode_bitmap : Option (List ℕ) → List ℕ
encode_bitmap none = []
encode_bitmap (some bitmap) = bitmap

unfoldable pub encode_ack_payload : AckPayload → List ℕ
encode_ack_payload a =
    be_bytes 8 a.ack_seq
    ++ (be_bytes 4 a.credit_grant ++ (be_bytes 4 a.reserved ++ encode_bitmap a.sack_bitmap))

unfoldable pub read_sack : Bool → List ℕ → List ℕ → Result (Option (List ℕ))
read_sack false buf cur = ok none
read_sack true buf cur = do
  guard (leb 48 (length buf)) (internal sack_too_short)
  (bitmap, _) ← read_exact 32 cur
  ok (some bitmap)

unfoldable pub decode_ack_payload : List ℕ → Bool → Result AckPayload
decode_ack_payload buf has_sack = do
  guard (leb 16 (length buf)) (internal ack_too_short)
  (ack_seq, cur) ← read_be 8 buf
  (credit_grant, cur) ← read_be 4 cur
  (reserved, cur) ← read_be 4 cur
  sack_bitmap ← read_sack has_sack buf cur
  ok (record {
    ack_seq = ack_seq;
    credit_grant = credit_grant;
    reserved = reserved;
    sack_bitmap = sack_bitmap;
  })

unfoldable pub encode_credit_payload : CreditPayload → List ℕ
encode_credit_payload c = be_bytes 4 c.credits ++ be_bytes 4 c.reserved

unfoldable pub decode_credit_payload : List ℕ → Result CreditPayload
decode_credit_payload buf = do
  guard (leb 8 (length buf)) (internal credit_too_short)
  (credits, cur) ← read_be 4 buf
  (reserved, _) ← read_be 4 cur
  ok (record { credits = credits; reserved = reserved })
