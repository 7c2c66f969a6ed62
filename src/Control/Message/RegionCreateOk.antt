-- ===== src/Control/Message/RegionCreateOk.antt =====
-- crates/ub-control/src/message.rs: `RegionCreateOkPayload`, the payload of REGION_CREATE_OK.
use unibus_toy.Base.{ℕ, ◌≡◌, List, ◌++◌}
use mathlib.Core.List.{append_assoc}
use unibus_toy.Core.Error.{Result, ok, ◌>>=◌}
use unibus_toy.Core.Bytes.{be_bytes, Fits}
use unibus_toy.Wire.Codec.{read_be}
use unibus_toy.Control.Cursor.{reads}

pub record RegionCreateOkPayload : Type 0 where
  pub region_id : ℕ
  pub mr_handle : ℕ
  pub base_offset : ℕ
  pub device_id : ℕ

unfoldable pub encode : RegionCreateOkPayload → List ℕ
encode p =
    be_bytes 8 p.region_id
    ++ (be_bytes 4 p.mr_handle ++ (be_bytes 8 p.base_offset ++ (be_bytes 2 p.device_id)))

unfoldable pub decode : List ℕ → Result RegionCreateOkPayload
decode cur = do
  (region_id, cur) ← read_be 8 cur
  (mr_handle, cur) ← read_be 4 cur
  (base_offset, cur) ← read_be 8 cur
  (device_id, _) ← read_be 2 cur
  ok (record {
    region_id = region_id;
    mr_handle = mr_handle;
    base_offset = base_offset;
    device_id = device_id;
  })

-- The payloads whose fields are values of their types.
pub record IsRegionCreateOk (p : RegionCreateOkPayload) : Type 0 where
  pub region_id : Fits 8 p.region_id
  pub mr_handle : Fits 4 p.mr_handle
  pub base_offset : Fits 8 p.base_offset
  pub device_id : Fits 2 p.device_id

pub decode-encode :
    (p : RegionCreateOkPayload) (rest : List ℕ)
    → IsRegionCreateOk p
    → decode (encode p ++ rest) ≡ ok p
unfolding decode encode
decode-encode p rest v =
    simp
      (append_assoc, reads v.region_id, reads v.mr_handle, reads v.base_offset, reads v.device_id)
