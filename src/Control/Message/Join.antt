-- ===== src/Control/Message/Join.antt =====
-- crates/ub-control/src/message.rs: `JoinPayload`, the payload of JOIN.
use unibus_toy.Base.{ℕ, ◌≡◌, List, ◌++◌}
use mathlib.Core.List.{append_assoc}
use unibus_toy.Core.Error.{Result, ok, ◌>>=◌}
use unibus_toy.Core.Bytes.{be_bytes, Fits}
use unibus_toy.Wire.Codec.{read_be}
use unibus_toy.Control.Cursor.{encode_bytes, read_text, IsText, reads, read_text-encode}

pub record JoinPayload : Type 0 where
  pub node_id : ℕ
  pub epoch : ℕ
  pub data_addr : List ℕ
  pub control_addr : List ℕ
  pub initial_credits : ℕ

unfoldable pub encode : JoinPayload → List ℕ
encode p =
    be_bytes 2 p.node_id
    ++ (be_bytes 4 p.epoch
        ++ (encode_bytes p.data_addr
            ++ (encode_bytes p.control_addr ++ (be_bytes 4 p.initial_credits))))

unfoldable pub decode : List ℕ → Result JoinPayload
decode cur = do
  (node_id, cur) ← read_be 2 cur
  (epoch, cur) ← read_be 4 cur
  (data_addr, cur) ← read_text cur
  (control_addr, cur) ← read_text cur
  (initial_credits, _) ← read_be 4 cur
  ok (record {
    node_id = node_id;
    epoch = epoch;
    data_addr = data_addr;
    control_addr = control_addr;
    initial_credits = initial_credits;
  })

-- The payloads whose fields are values of their types.
pub record IsJoin (p : JoinPayload) : Type 0 where
  pub node_id : Fits 2 p.node_id
  pub epoch : Fits 4 p.epoch
  pub data_addr : IsText p.data_addr
  pub control_addr : IsText p.control_addr
  pub initial_credits : Fits 4 p.initial_credits

pub decode-encode : (p : JoinPayload) (rest : List ℕ) → IsJoin p → decode (encode p ++ rest) ≡ ok p
unfolding decode encode
decode-encode p rest v = simp (
  append_assoc,
  reads v.node_id,
  reads v.epoch,
  read_text-encode v.data_addr,
  read_text-encode v.control_addr,
  reads v.initial_credits,
)
