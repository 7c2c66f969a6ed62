-- ===== src/Control/Message/MemberDown.antt =====
-- crates/ub-control/src/message.rs: `MemberDownPayload`, the payload of MEMBER_DOWN.
use unibus_toy.Base.{ℕ, ◌≡◌, List, ◌++◌}
use mathlib.Core.List.{append_assoc}
use unibus_toy.Core.Error.{Result, ok, ◌>>=◌}
use unibus_toy.Core.Bytes.{be_bytes, Fits}
use unibus_toy.Wire.Codec.{read_be}
use unibus_toy.Control.Cursor.{reads}

pub record MemberDownPayload : Type 0 where
  pub node_id : ℕ
  pub reason : ℕ

unfoldable pub encode : MemberDownPayload → List ℕ
encode p = be_bytes 2 p.node_id ++ (be_bytes 1 p.reason)

unfoldable pub decode : List ℕ → Result MemberDownPayload
decode cur = do
  (node_id, cur) ← read_be 2 cur
  (reason, _) ← read_be 1 cur
  ok (record { node_id = node_id; reason = reason })

-- The payloads whose fields are values of their types.
pub record IsMemberDown (p : MemberDownPayload) : Type 0 where
  pub node_id : Fits 2 p.node_id
  pub reason : Fits 1 p.reason

pub decode-encode :
    (p : MemberDownPayload) (rest : List ℕ) → IsMemberDown p → decode (encode p ++ rest) ≡ ok p
unfolding decode encode
decode-encode p rest v = simp (append_assoc, reads v.node_id, reads v.reason)
