-- ===== src/Wire/Frame.antt =====
-- crates/ub-wire/src/frame.rs: frame types, flags and headers. A set of flags is its bits.
use unibus_toy.Base.{ℕ, ◌≡◌, refl, Bool, Option, none, some, List, ◌==◌, if◌then◌else◌, bit_and}
use unibus_toy.Core.Verb.{Verb}

abbrev pub magic_word : ℕ
magic_word = 0x5542_5459

abbrev pub wire_version : ℕ
wire_version = 1

abbrev pub frame_header_size : ℕ
frame_header_size = 32

abbrev pub data_ext_header_size : ℕ
data_ext_header_size = 48

abbrev pub data_ext_header_imm_size : ℕ
data_ext_header_imm_size = 56

pub data FrameType : Type 0 where
  data_frame ack_frame credit_frame : FrameType

-- `frame_type as u8`
unfoldable pub to_u8 : FrameType → ℕ
to_u8 data_frame = 1
to_u8 ack_frame = 2
to_u8 credit_frame = 3

unfoldable pub from_u8 : ℕ → Option FrameType
from_u8 v =
    if v == 1
    then some data_frame
    else if v == 2
    then some ack_frame
    else if v == 3
    then some credit_frame
    else none

pub from_u8-to_u8 : (t : FrameType) → from_u8 (to_u8 t) ≡ some t
unfolding from_u8 to_u8
from_u8-to_u8 data_frame = refl
from_u8-to_u8 _ = refl

-- `FrameFlags`: seven flags are declared, and `from_bits_truncate` drops the other bits.
abbrev pub flag_ack_req : ℕ
flag_ack_req = 1

abbrev pub flag_has_imm : ℕ
flag_has_imm = 0x10

abbrev pub flag_has_sack : ℕ
flag_has_sack = 0x20

unfoldable pub truncate_flags : ℕ → ℕ
truncate_flags bits = bit_and bits 0x7f

-- `flags.contains(FrameFlags::HAS_SACK)`
unfoldable pub contains_has_sack : ℕ → Bool
contains_has_sack flags = bit_and flags flag_has_sack == flag_has_sack

-- `ExtFlags`: three flags.
abbrev pub ext_flag_has_imm : ℕ
ext_flag_has_imm = 1

abbrev pub ext_flag_err_resp : ℕ
ext_flag_err_resp = 4

unfoldable pub truncate_ext_flags : ℕ → ℕ
truncate_ext_flags bits = bit_and bits 7

-- `ext_flags.contains(ExtFlags::HAS_IMM)`
unfoldable pub contains_has_imm : ℕ → Bool
contains_has_imm flags = bit_and flags ext_flag_has_imm == ext_flag_has_imm

-- `ext_flags.contains(ExtFlags::ERR_RESP)`
unfoldable pub contains_err_resp : ℕ → Bool
contains_err_resp flags = bit_and flags ext_flag_err_resp == ext_flag_err_resp

pub record FrameHeader : Type 0 where
  pub magic : ℕ
  pub version : ℕ
  pub frame_type : FrameType
  pub flags : ℕ
  pub src_node : ℕ
  pub dst_node : ℕ
  pub reserved : ℕ
  pub stream_seq : ℕ
  pub payload_len : ℕ
  pub header_crc : ℕ

pub record DataExtHeader : Type 0 where
  pub verb : Verb
  pub ext_flags : ℕ
  pub mr_handle : ℕ
  pub jetty_src : ℕ
  pub jetty_dst : ℕ
  pub opaque : ℕ
  pub frag_id : ℕ
  pub frag_index : ℕ
  pub frag_total : ℕ
  pub ub_addr : ℕ
  pub imm : Option ℕ

pub record AckPayload : Type 0 where
  pub ack_seq : ℕ
  pub credit_grant : ℕ
  pub reserved : ℕ
  pub sack_bitmap : Option (List ℕ)

pub record CreditPayload : Type 0 where
  pub credits : ℕ
  pub reserved : ℕ
