-- ===== src/Control/Message/WriteUnlock.antt =====
-- crates/ub-control/src/message.rs: `WriteUnlockPayload`, the payload of WRITE_UNLOCK.
use unibus_toy.Base.{ℕ, ◌≡◌, List, ◌++◌}
use mathlib.Core.List.{append_assoc}
use unibus_toy.Core.Error.{Result, ok, ◌>>=◌}
use unibus_toy.Core.Bytes.{be_bytes, Fits}
use unibus_toy.Wire.Codec.{read_be}
use unibus_toy.Control.Cursor.{reads}

pub record WriteUnlockPayload : Type 0 where
  pub region_id : ℕ
  pub writer_node_id : ℕ

unfoldable pub encode : WriteUnlockPayload → List ℕ
encode p = be_bytes 8 p.region_id ++ (be_bytes 2 p.writer_node_id)

unfoldable pub decode : List ℕ → Result WriteUnlockPayload
decode cur = do
  (region_id, cur) ← read_be 8 cur
  (writer_node_id, _) ← read_be 2 cur
  ok (record { region_id = region_id; writer_node_id = writer_node_id })

-- The payloads whose fields are values of their types.
pub record IsWriteUnlock (p : WriteUnlockPayload) : Type 0 where
  pub region_id : Fits 8 p.region_id
  pub writer_node_id : Fits 2 p.writer_node_id

pub decode-encode :
    (p : WriteUnlockPayload) (rest : List ℕ) → IsWriteUnlock p → decode (encode p ++ rest) ≡ ok p
unfolding decode encode
decode-encode p rest v = simp (append_assoc, reads v.region_id, reads v.writer_node_id)
