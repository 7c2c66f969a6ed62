-- ===== src/Dataplane/Frames.antt =====
-- crates/ub-dataplane/src/lib.rs: the frames that the verb engine builds, and the statuses of its
-- error responses.
use unibus_toy.Base.{ℕ, ◌%◌, ◌^◌, Option, none, some, List, ◌==◌, if◌then◌else◌, length}
use unibus_toy.Core.Error.{
  UbError, addr_invalid, perm_denied, alignment, link_down, no_resources, timeout,
  payload_too_large, flushed, internal, unknown_status,
}
use unibus_toy.Core.Verb.{Verb}
use unibus_toy.Wire.Frame.{
  FrameHeader, DataExtHeader, data_frame, magic_word, wire_version, flag_has_imm, ext_flag_has_imm,
}
use unibus_toy.Wire.Codec.{encode_frame}

abbrev pub max_payload_size : ℕ
max_payload_size = 1320

-- The header that both builders write, with its flags.
abbrev pub data_header : ℕ → ℕ → ℕ → List ℕ → FrameHeader
data_header flags src_node dst_node payload = record {
  magic = magic_word;
  version = wire_version;
  frame_type = data_frame;
  flags = flags;
  src_node = src_node;
  dst_node = dst_node;
  reserved = 0;
  stream_seq = 0;
  payload_len = length payload % 2 ^ 32;
  header_crc = 0;
}

abbrev pub plain_ext : Verb → ℕ → ℕ → ℕ → ℕ → DataExtHeader
plain_ext verb mr_handle ub_addr opaque ext_flags = record {
  verb = verb;
  ext_flags = ext_flags;
  mr_handle = mr_handle;
  jetty_src = 0;
  jetty_dst = 0;
  opaque = opaque;
  frag_id = 0;
  frag_index = 0;
  frag_total = 1;
  ub_addr = ub_addr;
  imm = none;
}

unfoldable pub build_data_frame_with_flags : ℕ → ℕ → Verb → ℕ → ℕ → ℕ → List ℕ → ℕ → List ℕ
build_data_frame_with_flags src_node dst_node verb mr_handle ub_addr opaque payload ext_flags =
    encode_frame (data_header 0 src_node dst_node payload)
      (some (plain_ext verb mr_handle ub_addr opaque ext_flags)) payload

unfoldable pub build_data_frame : ℕ → ℕ → Verb → ℕ → ℕ → ℕ → List ℕ → List ℕ
build_data_frame src_node dst_node verb mr_handle ub_addr opaque payload =
    build_data_frame_with_flags src_node dst_node verb mr_handle ub_addr opaque payload 0

-- `if imm.is_some() { flags |= … }`
abbrev pub if_some : Option ℕ → ℕ → ℕ
if_some none flag = 0
if_some (some imm) flag = flag

unfoldable pub build_data_frame_ex : ℕ → ℕ → Verb → ℕ → ℕ → ℕ → ℕ → ℕ → Option ℕ → List ℕ → List ℕ
build_data_frame_ex src_node dst_node verb mr_handle ub_addr opaque jetty_src jetty_dst imm
      payload =
    encode_frame (data_header (if_some imm flag_has_imm) src_node dst_node payload)
      (some (record (plain_ext verb mr_handle ub_addr opaque (if_some imm ext_flag_has_imm)) {
        jetty_src = jetty_src;
        jetty_dst = jetty_dst;
        imm = imm;
      }))
      payload

unfoldable pub status_to_error : ℕ → UbError
status_to_error status =
    if status == 1
    then addr_invalid
    else if status == 2
    then perm_denied
    else if status == 3
    then alignment
    else if status == 4
    then link_down
    else if status == 5
    then no_resources
    else if status == 6
    then timeout
    else if status == 7
    then payload_too_large
    else if status == 8
    then flushed
    else internal (unknown_status status)
