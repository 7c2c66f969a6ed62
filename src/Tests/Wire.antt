-- ===== src/Tests/Wire.antt =====
-- crates/ub-wire at concrete inputs: the frames of the tests in codec.rs.
use unibus_toy.Base.{◌≡◌, refl, some, [], ◌∷◌, arith}
use unibus_toy.Core.Error.{ok}
use unibus_toy.Core.Verb
use unibus_toy.Wire.Frame.{FrameHeader, DataExtHeader, data_frame, contains_has_imm}
use unibus_toy.Wire.Codec.{encode_frame, decode_frame}
use unibus_toy.Wire.Codec.Header.{IsHeader}
use unibus_toy.Wire.Codec.Ext.{IsExt}
use unibus_toy.Wire.Codec.RoundTrip.{decode_frame-encode_frame}
use unibus_toy.Wire.Codec.Rejection.{Returns, IsAccepted, decode_frame_accepts}

abbrev test_header : FrameHeader
test_header = record {
  magic = 0x5542_5459;
  version = 1;
  frame_type = data_frame;
  flags = 1;
  src_node = 1;
  dst_node = 2;
  reserved = 0;
  stream_seq = 42;
  payload_len = 4;
  header_crc = 0;
}

abbrev test_ext : DataExtHeader
test_ext = record {
  verb = Verb.write_imm;
  ext_flags = 1;
  mr_handle = 1;
  jetty_src = 0;
  jetty_dst = 0;
  opaque = 100;
  frag_id = 100;
  frag_index = 0;
  frag_total = 1;
  ub_addr = 0x0001_0002_0000_0000_0000_0000_0000_0000;
  imm = some 0x1234_5678;
}

abbrev test_header-IsHeader : IsHeader test_header
test_header-IsHeader = record {
  magic = refl;
  version = refl;
  flags = omega arith;
  src_node = omega arith;
  dst_node = omega arith;
  reserved = omega arith;
  stream_seq = omega arith;
  payload_len = omega arith;
  header_crc = omega arith;
}

test_ext-IsExt : IsExt test_ext
unfolding contains_has_imm
test_ext-IsExt = record {
  ext_flags = omega arith;
  mr_handle = omega arith;
  jetty_src = omega arith;
  jetty_dst = omega arith;
  opaque = omega arith;
  frag_id = omega arith;
  frag_index = omega arith;
  frag_total = omega arith;
  ub_addr = omega arith;
  imm_flag = refl;
  imm_fits = omega arith;
}

decode_frame-encode_frame_example :
    decode_frame (encode_frame test_header (some test_ext) (1 ∷ 2 ∷ 3 ∷ 4 ∷ []))
    ≡ ok (test_header, some test_ext, 1 ∷ 2 ∷ 3 ∷ 4 ∷ [])
decode_frame-encode_frame_example =
    decode_frame-encode_frame test_header (some test_ext) (1 ∷ 2 ∷ 3 ∷ 4 ∷ []) test_header-IsHeader
      test_ext-IsExt

decode_frame_accepts_example : Returns (IsAccepted (85 ∷ 66 ∷ [])) (decode_frame (85 ∷ 66 ∷ []))
decode_frame_accepts_example = decode_frame_accepts (85 ∷ 66 ∷ [])
