-- ===== src/Control/Message/MrRevoke.antt =====
-- crates/ub-control/src/message.rs: `MrRevokePayload`, the payload of MR_REVOKE.
use unibus_toy.Base.{ℕ, ◌≡◌, List, ◌++◌}
use mathlib.Core.List.{append_assoc}
use unibus_toy.Core.Error.{Result, ok, ◌>>=◌}
use unibus_toy.Core.Bytes.{be_bytes, Fits}
use unibus_toy.Wire.Codec.{read_be}
use unibus_toy.Control.Cursor.{reads}

pub record MrRevokePayload : Type 0 where
  pub owner_node : ℕ
  pub mr_handle : ℕ

unfoldable pub encode : MrRevokePayload → List ℕ
encode p = be_bytes 2 p.owner_node ++ (be_bytes 4 p.mr_handle)

unfoldable pub decode : List ℕ → Result MrRevokePayload
decode cur = do
  (owner_node, cur) ← read_be 2 cur
  (mr_handle, _) ← read_be 4 cur
  ok (record { owner_node = owner_node; mr_handle = mr_handle })

-- The payloads whose fields are values of their types.
pub record IsMrRevoke (p : MrRevokePayload) : Type 0 where
  pub owner_node : Fits 2 p.owner_node
  pub mr_handle : Fits 4 p.mr_handle

pub decode-encode :
    (p : MrRevokePayload) (rest : List ℕ) → IsMrRevoke p → decode (encode p ++ rest) ≡ ok p
unfolding decode encode
decode-encode p rest v = simp (append_assoc, reads v.owner_node, reads v.mr_handle)
