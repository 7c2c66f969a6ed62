-- ===== src/Control/Message/Invalidate.antt =====
-- crates/ub-control/src/message.rs: `InvalidatePayload`, the payload of INVALIDATE.
use unibus_toy.Base.{ℕ, ◌≡◌, List, ◌++◌}
use mathlib.Core.List.{append_assoc}
use unibus_toy.Core.Error.{Result, ok, ◌>>=◌}
use unibus_toy.Core.Bytes.{be_bytes, Fits}
use unibus_toy.Wire.Codec.{read_be}
use unibus_toy.Control.Cursor.{reads}

pub record InvalidatePayload : Type 0 where
  pub region_id : ℕ
  pub new_epoch : ℕ

unfoldable pub encode : InvalidatePayload → List ℕ
encode p = be_bytes 8 p.region_id ++ (be_bytes 8 p.new_epoch)

unfoldable pub decode : List ℕ → Result InvalidatePayload
decode cur = do
  (region_id, cur) ← read_be 8 cur
  (new_epoch, _) ← read_be 8 cur
  ok (record { region_id = region_id; new_epoch = new_epoch })

-- The payloads whose fields are values of their types.
pub record IsInvalidate (p : InvalidatePayload) : Type 0 where
  pub region_id : Fits 8 p.region_id
  pub new_epoch : Fits 8 p.new_epoch

pub decode-encode :
    (p : InvalidatePayload) (rest : List ℕ) → IsInvalidate p → decode (encode p ++ rest) ≡ ok p
unfolding decode encode
decode-encode p rest v = simp (append_assoc, reads v.region_id, reads v.new_epoch)
