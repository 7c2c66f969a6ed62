-- ===== src/Control/Message/RegionCreate.antt =====
-- crates/ub-control/src/message.rs: `RegionCreatePayload`, the payload of REGION_CREATE.
use unibus_toy.Base.{ℕ, ◌≡◌, List, ◌++◌}
use mathlib.Core.List.{append_assoc}
use unibus_toy.Core.Error.{Result, ok, ◌>>=◌, internal, invalid_device_kind}
use unibus_toy.Core.Bytes.{be_bytes, Fits}
use unibus_toy.Core.DeviceKind
use unibus_toy.Core.DeviceKind.{DeviceKind}
use unibus_toy.Wire.Codec.{read_be, ok_or}
use unibus_toy.Control.Cursor.{reads}

pub record RegionCreatePayload : Type 0 where
  pub region_id : ℕ
  pub size : ℕ
  pub device_kind : DeviceKind

unfoldable pub encode : RegionCreatePayload → List ℕ
encode p =
    be_bytes 8 p.region_id ++ (be_bytes 8 p.size ++ (be_bytes 1 (DeviceKind.to_u8 p.device_kind)))

unfoldable pub decode : List ℕ → Result RegionCreatePayload
decode cur = do
  (region_id, cur) ← read_be 8 cur
  (size, cur) ← read_be 8 cur
  (kind_u8, _) ← read_be 1 cur
  device_kind ← ok_or (DeviceKind.from_u8 kind_u8) (internal (invalid_device_kind kind_u8))
  ok (record { region_id = region_id; size = size; device_kind = device_kind })

-- The payloads whose fields are values of their types.
pub record IsRegionCreate (p : RegionCreatePayload) : Type 0 where
  pub region_id : Fits 8 p.region_id
  pub size : Fits 8 p.size

pub decode-encode :
    (p : RegionCreatePayload) (rest : List ℕ) → IsRegionCreate p → decode (encode p ++ rest) ≡ ok p
unfolding decode encode
decode-encode p rest v = simp (
  append_assoc,
  reads v.region_id,
  reads v.size,
  reads (DeviceKind.to_u8-Fits p.device_kind),
  DeviceKind.from_u8-to_u8 p.device_kind,
)
