-- ===== src/Transport/Manager/Frames.antt =====
-- crates/ub-transport/src/manager.rs: the ACK and CREDIT frames that the manager builds.
use unibus_toy.Base.{ℕ, Option, none, some, List, ◌++◌}
use unibus_toy.Core.Bytes.{be_bytes}
use unibus_toy.Wire.Frame.{
  AckPayload, FrameHeader, FrameType, ack_frame, credit_frame, magic_word, wire_version,
  flag_has_sack,
}
use unibus_toy.Wire.Codec.{encode_frame, encode_bitmap}

abbrev pub sack_flags : Option (List ℕ) → ℕ
sack_flags none = 0
sack_flags (some bitmap) = flag_has_sack

abbrev pub control_header : FrameType → ℕ → ℕ → ℕ → FrameHeader
control_header frame_type flags local_node remote_node = record {
  magic = magic_word;
  version = wire_version;
  frame_type = frame_type;
  flags = flags;
  src_node = local_node;
  dst_node = remote_node;
  reserved = 0;
  stream_seq = 0;
  payload_len = 0;
  header_crc = 0;
}

-- The payload is written here by hand, field by field.
unfoldable pub build_ack_frame : ℕ → ℕ → AckPayload → List ℕ
build_ack_frame local_node remote_node ack =
    encode_frame (control_header ack_frame (sack_flags ack.sack_bitmap) local_node remote_node) none
      (be_bytes 8 ack.ack_seq
        ++ (be_bytes 4 ack.credit_grant
            ++ (be_bytes 4 ack.reserved ++ encode_bitmap ack.sack_bitmap)))

unfoldable pub build_credit_frame : ℕ → ℕ → ℕ → List ℕ
build_credit_frame local_node remote_node credits =
    encode_frame (control_header credit_frame 0 local_node remote_node) none
      (be_bytes 4 credits ++ be_bytes 4 0)
