-- ===== src/Control/Message/InvalidateAck.antt =====
-- crates/ub-control/src/message.rs: `InvalidateAckPayload`, the payload of INVALIDATE_ACK.
use unibus_toy.Base.{ℕ, ◌≡◌, List, ◌++◌}
use unibus_toy.Core.Error.{Result, ok, ◌>>=◌}
use unibus_toy.Core.Bytes.{be_bytes, Fits}
use unibus_toy.Wire.Codec.{read_be}
use unibus_toy.Control.Cursor.{reads}

pub record InvalidateAckPayload : Type 0 where
  pub region_id : ℕ

unfoldable pub encode : InvalidateAckPayload → List ℕ
encode p = be_bytes 8 p.region_id

unfoldable pub decode : List ℕ → Result InvalidateAckPayload
decode cur = do (region_id, _) ← read_be 8 cur; ok (record { region_id = region_id })

-- The payloads whose fields are values of their types.
pub record IsInvalidateAck (p : InvalidateAckPayload) : Type 0 where
  pub region_id : Fits 8 p.region_id

pub decode-encode :
    (p : InvalidateAckPayload) (rest : List ℕ)
    → IsInvalidateAck p
    → decode (encode p ++ rest) ≡ ok p
unfolding decode encode
decode-encode p rest v = simp (reads v.region_id)
