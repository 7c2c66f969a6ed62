-- ===== src/Control/Message/Hello.antt =====
-- crates/ub-control/src/message.rs: `HelloPayload`, the payload of HELLO, HELLO_ACK and MEMBER_UP.
use unibus_toy.Base.{ℕ, ◌≡◌, List, ◌++◌}
use mathlib.Core.List.{append_assoc}
use unibus_toy.Core.Error.{Result, ok, ◌>>=◌}
use unibus_toy.Core.Bytes.{be_bytes, Fits}
use unibus_toy.Wire.Codec.{read_be}
use unibus_toy.Control.Cursor.{encode_bytes, read_text, IsText, reads, read_text-encode}

pub record HelloPayload : Type 0 where
  pub node_id : ℕ
  pub version : ℕ
  pub local_epoch : ℕ
  pub initial_credits : ℕ
  pub data_addr : List ℕ

unfoldable pub encode : HelloPayload → List ℕ
encode p =
    be_bytes 2 p.node_id
    ++ (be_bytes 2 p.version
        ++ (be_bytes 4 p.local_epoch
            ++ (be_bytes 4 p.initial_credits ++ (encode_bytes p.data_addr))))

unfoldable pub decode : List ℕ → Result HelloPayload
decode cur = do
  (node_id, cur) ← read_be 2 cur
  (version, cur) ← read_be 2 cur
  (local_epoch, cur) ← read_be 4 cur
  (initial_credits, cur) ← read_be 4 cur
  (data_addr, _) ← read_text cur
  ok (record {
    node_id = node_id;
    version = version;
    local_epoch = local_epoch;
    initial_credits = initial_credits;
    data_addr = data_addr;
  })

-- The payloads whose fields are values of their types.
pub record IsHello (p : HelloPayload) : Type 0 where
  pub node_id : Fits 2 p.node_id
  pub version : Fits 2 p.version
  pub local_epoch : Fits 4 p.local_epoch
  pub initial_credits : Fits 4 p.initial_credits
  pub data_addr : IsText p.data_addr

pub decode-encode :
    (p : HelloPayload) (rest : List ℕ) → IsHello p → decode (encode p ++ rest) ≡ ok p
unfolding decode encode
decode-encode p rest v = simp (
  append_assoc,
  reads v.node_id,
  reads v.version,
  reads v.local_epoch,
  reads v.initial_credits,
  read_text-encode v.data_addr,
)
