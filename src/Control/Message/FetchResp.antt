-- ===== src/Control/Message/FetchResp.antt =====
-- crates/ub-control/src/message.rs: `FetchRespPayload`, the payload of FETCH_RESP.
use unibus_toy.Base.{ℕ, ◌≡◌, List, ◌++◌, length}
use mathlib.Core.List.{append_assoc}
use unibus_toy.Core.Error.{Result, ok, ◌>>=◌}
use unibus_toy.Core.Bytes.{be_bytes, Fits}
use unibus_toy.Wire.Codec.{read_be}
use unibus_toy.Control.Cursor.{encode_bytes, read_bytes, reads, read_bytes-encode}

pub record FetchRespPayload : Type 0 where
  pub region_id : ℕ
  pub epoch : ℕ
  pub payload : List ℕ
  pub error_code : ℕ

unfoldable pub encode : FetchRespPayload → List ℕ
encode p =
    be_bytes 8 p.region_id
    ++ (be_bytes 8 p.epoch ++ (encode_bytes p.payload ++ (be_bytes 4 p.error_code)))

unfoldable pub decode : List ℕ → Result FetchRespPayload
decode cur = do
  (region_id, cur) ← read_be 8 cur
  (epoch, cur) ← read_be 8 cur
  (payload, cur) ← read_bytes cur
  (error_code, _) ← read_be 4 cur
  ok (record { region_id = region_id; epoch = epoch; payload = payload; error_code = error_code })

-- The payloads whose fields are values of their types.
pub record IsFetchResp (p : FetchRespPayload) : Type 0 where
  pub region_id : Fits 8 p.region_id
  pub epoch : Fits 8 p.epoch
  pub payload : Fits 4 (length p.payload)
  pub error_code : Fits 4 p.error_code

pub decode-encode :
    (p : FetchRespPayload) (rest : List ℕ) → IsFetchResp p → decode (encode p ++ rest) ≡ ok p
unfolding decode encode
decode-encode p rest v = simp (
  append_assoc,
  reads v.region_id,
  reads v.epoch,
  read_bytes-encode v.payload,
  reads v.error_code,
)
