-- ===== src/Control/Message/Heartbeat.antt =====
-- crates/ub-control/src/message.rs: `HeartbeatPayload`, the payload of HEARTBEAT and HEARTBEAT_ACK.
use unibus_toy.Base.{ℕ, ◌≡◌, List, ◌++◌}
use mathlib.Core.List.{append_assoc}
use unibus_toy.Core.Error.{Result, ok, ◌>>=◌}
use unibus_toy.Core.Bytes.{be_bytes, Fits}
use unibus_toy.Wire.Codec.{read_be}
use unibus_toy.Control.Cursor.{reads}

pub record HeartbeatPayload : Type 0 where
  pub node_id : ℕ
  pub timestamp : ℕ

unfoldable pub encode : HeartbeatPayload → List ℕ
encode p = be_bytes 2 p.node_id ++ (be_bytes 8 p.timestamp)

unfoldable pub decode : List ℕ → Result HeartbeatPayload
decode cur = do
  (node_id, cur) ← read_be 2 cur
  (timestamp, _) ← read_be 8 cur
  ok (record { node_id = node_id; timestamp = timestamp })

-- The payloads whose fields are values of their types.
pub record IsHeartbeat (p : HeartbeatPayload) : Type 0 where
  pub node_id : Fits 2 p.node_id
  pub timestamp : Fits 8 p.timestamp

pub decode-encode :
    (p : HeartbeatPayload) (rest : List ℕ) → IsHeartbeat p → decode (encode p ++ rest) ≡ ok p
unfolding decode encode
decode-encode p rest v = simp (append_assoc, reads v.node_id, reads v.timestamp)
