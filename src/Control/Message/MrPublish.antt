-- ===== src/Control/Message/MrPublish.antt =====
-- crates/ub-control/src/message.rs: `MrPublishPayload`, the payload of MR_PUBLISH.
use unibus_toy.Base.{ℕ, ◌^◌, ◌<◌, ◌≡◌, List, ◌++◌}
use mathlib.Core.List.{append_assoc}
use unibus_toy.Core.Error.{Result, ok, ◌>>=◌, internal, invalid_device_kind}
use unibus_toy.Core.Bytes.{be_bytes, Fits}
use unibus_toy.Core.Addr
use unibus_toy.Core.Addr.Fields.{from_bytes-to_bytes}
use unibus_toy.Core.Perms
use unibus_toy.Core.DeviceKind
use unibus_toy.Core.DeviceKind.{DeviceKind}
use unibus_toy.Wire.Codec.{read_be, read_exact, ok_or}
use unibus_toy.Control.Cursor.{reads, perms-Fits, read_exact-to_bytes}

pub record MrPublishPayload : Type 0 where
  pub owner_node : ℕ
  pub mr_handle : ℕ
  pub base_ub_addr : ℕ
  pub len : ℕ
  pub perms : ℕ
  pub device_kind : DeviceKind

unfoldable pub encode : MrPublishPayload → List ℕ
encode p =
    be_bytes 2 p.owner_node
    ++ (be_bytes 4 p.mr_handle
        ++ (Addr.to_bytes p.base_ub_addr
            ++ (be_bytes 8 p.len
                ++ (be_bytes 1 p.perms ++ (be_bytes 1 (DeviceKind.to_u8 p.device_kind))))))

unfoldable pub decode : List ℕ → Result MrPublishPayload
decode cur = do
  (owner_node, cur) ← read_be 2 cur
  (mr_handle, cur) ← read_be 4 cur
  (addr_bytes, cur) ← read_exact 16 cur
  (len, cur) ← read_be 8 cur
  (perms_bits, cur) ← read_be 1 cur
  (device_kind_u8, _) ← read_be 1 cur
  device_kind ←
      ok_or (DeviceKind.from_u8 device_kind_u8) (internal (invalid_device_kind device_kind_u8))
  ok (record {
    owner_node = owner_node;
    mr_handle = mr_handle;
    base_ub_addr = Addr.from_bytes addr_bytes;
    len = len;
    perms = Perms.truncate perms_bits;
    device_kind = device_kind;
  })

-- The payloads whose fields are values of their types.
pub record IsMrPublish (p : MrPublishPayload) : Type 0 where
  pub owner_node : Fits 2 p.owner_node
  pub mr_handle : Fits 4 p.mr_handle
  pub base_ub_addr : p.base_ub_addr < 2 ^ 128
  pub len : Fits 8 p.len
  pub perms : p.perms < 8

pub decode-encode :
    (p : MrPublishPayload) (rest : List ℕ) → IsMrPublish p → decode (encode p ++ rest) ≡ ok p
unfolding decode encode
decode-encode p rest v = simp (
  append_assoc,
  reads v.owner_node,
  reads v.mr_handle,
  read_exact-to_bytes v.base_ub_addr,
  (from_bytes-to_bytes p.base_ub_addr v.base_ub_addr).0,
  reads v.len,
  reads (perms-Fits v.perms),
  Perms.truncate_id p.perms v.perms,
  reads (DeviceKind.to_u8-Fits p.device_kind),
  DeviceKind.from_u8-to_u8 p.device_kind,
)
