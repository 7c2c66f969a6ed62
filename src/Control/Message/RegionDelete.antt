-- ===== src/Control/Message/RegionDelete.antt =====
-- crates/ub-control/src/message.rs: `RegionDeletePayload`, the payload of REGION_DELETE.
use unibus_toy.Base.{ℕ, ◌≡◌, List, ◌++◌}
use unibus_toy.Core.Error.{Result, ok, ◌>>=◌}
use unibus_toy.Core.Bytes.{be_bytes, Fits}
use unibus_toy.Wire.Codec.{read_be}
use unibus_toy.Control.Cursor.{reads}

pub record RegionDeletePayload : Type 0 where
  pub region_id : ℕ

unfoldable pub encode : RegionDeletePayload → List ℕ
encode p = be_bytes 8 p.region_id

unfoldable pub decode : List ℕ → Result RegionDeletePayload
decode cur = do (region_id, _) ← read_be 8 cur; ok (record { region_id = region_id })

-- The payloads whose fields are values of their types.
pub record IsRegionDelete (p : RegionDeletePayload) : Type 0 where
  pub region_id : Fits 8 p.region_id

pub decode-encode :
    (p : RegionDeletePayload) (rest : List ℕ) → IsRegionDelete p → decode (encode p ++ rest) ≡ ok p
unfolding decode encode
decode-encode p rest v = simp (reads v.region_id)
