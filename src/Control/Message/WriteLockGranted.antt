-- ===== src/Control/Message/WriteLockGranted.antt =====
-- crates/ub-control/src/message.rs: `WriteLockGrantedPayload`, the payload of WRITE_LOCK_GRANTED.
use unibus_toy.Base.{ℕ, ◌≡◌, List, ◌++◌}
use mathlib.Core.List.{append_assoc}
use unibus_toy.Core.Error.{Result, ok, ◌>>=◌}
use unibus_toy.Core.Bytes.{be_bytes, Fits}
use unibus_toy.Wire.Codec.{read_be}
use unibus_toy.Control.Cursor.{reads}

pub record WriteLockGrantedPayload : Type 0 where
  pub region_id : ℕ
  pub epoch : ℕ
  pub error_code : ℕ

unfoldable pub encode : WriteLockGrantedPayload → List ℕ
encode p = be_bytes 8 p.region_id ++ (be_bytes 8 p.epoch ++ (be_bytes 4 p.error_code))

unfoldable pub decode : List ℕ → Result WriteLockGrantedPayload
decode cur = do
  (region_id, cur) ← read_be 8 cur
  (epoch, cur) ← read_be 8 cur
  (error_code, _) ← read_be 4 cur
  ok (record { region_id = region_id; epoch = epoch; error_code = error_code })

-- The payloads whose fields are values of their types.
pub record IsWriteLockGranted (p : WriteLockGrantedPayload) : Type 0 where
  pub region_id : Fits 8 p.region_id
  pub epoch : Fits 8 p.epoch
  pub error_code : Fits 4 p.error_code

pub decode-encode :
    (p : WriteLockGrantedPayload) (rest : List ℕ)
    → IsWriteLockGranted p
    → decode (encode p ++ rest) ≡ ok p
unfolding decode encode
decode-encode p rest v = simp (append_assoc, reads v.region_id, reads v.epoch, reads v.error_code)
