-- ===== src/Dataplane/Errors.antt =====
-- The error responses of crates/ub-dataplane/src/lib.rs at the node that made the request.
use unibus_toy.Base.{ℕ, ◌^◌, ◌<◌}
use unibus_toy.Base.Assoc.{number_key}
use unibus_toy.Core.Bytes.{be_bytes}
use unibus_toy.Wire.Frame.{DataExtHeader, ext_flag_err_resp}
use unibus_toy.Transport.Manager.State.{InboundFrame}
use unibus_toy.Dataplane.Frames.{data_header, plain_ext}

-- What the fields of a request header hold.
pub record Fields (ext : DataExtHeader) : Type 0 where
  pub mr_handle : ext.mr_handle < 2 ^ 32
  pub opaque : ext.opaque < 2 ^ 64
  pub ub_addr : ext.ub_addr < 2 ^ 128

-- The frame of an error response, as the node that made the request gets it.
abbrev pub error_frame : ℕ → ℕ → ℕ → DataExtHeader → ℕ → InboundFrame
error_frame src dst status ext seq = record {
  header = record (data_header 0 src dst (be_bytes 4 status)) { stream_seq = seq };
  ext = plain_ext ext.verb ext.mr_handle ext.ub_addr ext.opaque ext_flag_err_resp;
  payload = be_bytes 4 status;
  seq = seq;
}
