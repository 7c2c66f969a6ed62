-- ===== src/Wire/Codec/RoundTrip.antt =====
-- A whole frame (crates/ub-wire/src/codec.rs) there and back.
use unibus_toy.Base.{
  ℕ, ◌+◌, ◌≡◌, refl, Option, none, some, List, [], ◌++◌, arith, length, length-append,
}
use mathlib.Core.List.{append_assoc}
use unibus_toy.Core.Error.{ok}
use unibus_toy.Wire.Frame.{
  FrameHeader, DataExtHeader, FrameType, data_frame, ack_frame, credit_frame,
}
use unibus_toy.Wire.Codec.{
  slice_from, encode_header, encode_ext, encode_frame, ext_size, read_ext, decode_frame,
}
use unibus_toy.Wire.Codec.Reading.{slice_from-append}
use unibus_toy.Wire.Codec.Header.{IsHeader, length-encode_header, read_header-encode_header}
use unibus_toy.Wire.Codec.Ext.{IsExt, length-encode_ext, decode_ext-encode_ext}

-- A data frame carries a proper extension header, and no other frame carries any.
abbrev pub ExtMatches : FrameType → Option DataExtHeader → Type 0
ExtMatches data_frame (some x) = IsExt x
ExtMatches data_frame none = ⊥
ExtMatches ack_frame none = Unit
ExtMatches ack_frame (some x) = ⊥
ExtMatches credit_frame none = Unit
ExtMatches credit_frame (some x) = ⊥

abbrev encode_opt : Option DataExtHeader → List ℕ
encode_opt none = []
encode_opt (some x) = encode_ext x

encode_frame-append :
    (h : FrameHeader) (ext : Option DataExtHeader) (payload : List ℕ)
    → encode_frame h ext payload ≡ encode_header h ++ (encode_opt ext ++ payload)
unfolding encode_frame
encode_frame-append h none payload = refl
encode_frame-append h (some x) payload = refl

read_ext-encode :
    (t : FrameType) (ext : Option DataExtHeader) (payload : List ℕ)
    → ExtMatches t ext
    → read_ext t (encode_opt ext ++ payload) ≡ ok ext
unfolding read_ext
read_ext-encode data_frame (some x) payload m = rw (decode_ext-encode_ext x payload m)
read_ext-encode data_frame none payload m = absurd m
read_ext-encode ack_frame none payload m = refl
read_ext-encode ack_frame (some x) payload m = absurd m
read_ext-encode credit_frame none payload m = refl
read_ext-encode credit_frame (some x) payload m = absurd m

length-encode_opt :
    (t : FrameType) (ext : Option DataExtHeader)
    → ExtMatches t ext
    → length (encode_opt ext) ≡ ext_size ext
unfolding ext_size
length-encode_opt data_frame (some x) m = length-encode_ext x m.ub_addr
length-encode_opt data_frame none m = absurd m
length-encode_opt ack_frame none m = refl
length-encode_opt ack_frame (some x) m = absurd m
length-encode_opt credit_frame none m = refl
length-encode_opt credit_frame (some x) m = absurd m

-- For a header of this version whose fields fit their widths, with an extension header on a data
-- frame and on no other, whose fields fit and whose flag tells whether there is an immediate,
-- decoding the encoded bytes gives back header, extension header and payload.
pub decode_frame-encode_frame :
    (h : FrameHeader) (ext : Option DataExtHeader) (payload : List ℕ)
    → IsHeader h
    → ExtMatches h.frame_type ext
    → decode_frame (encode_frame h ext payload) ≡ ok (h, ext, payload)
unfolding decode_frame
decode_frame-encode_frame h ext payload v m =
    let tail = encode_opt ext ++ payload in
    let front = encode_header h ++ encode_opt ext in
    let size : length front ≡ 32 + ext_size ext = omega (
      arith,
      length-append (encode_header h) (encode_opt ext),
      length-encode_header h,
      length-encode_opt h.frame_type ext m,
    ) in
    let payload_left : slice_from (32 + ext_size ext) (encode_header h ++ tail) ≡ ok payload =
      rw (append_assoc (encode_header h) (encode_opt ext) payload) at
        (slice_from-append (32 + ext_size ext) front payload size) in
    rw (
      encode_frame-append h ext payload,
      read_header-encode_header h tail v,
      slice_from-append 32 (encode_header h) tail (length-encode_header h),
      read_ext-encode h.frame_type ext payload m,
      payload_left,
    )
