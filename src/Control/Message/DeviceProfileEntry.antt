-- ===== src/Control/Message/DeviceProfileEntry.antt =====
-- crates/ub-control/src/message.rs: `DeviceProfileEntry`, an entry of DEVICE_PROFILE_PUBLISH.
use unibus_toy.Base.{ℕ, ◌≡◌, List, ◌++◌, length, length-append, arith}
use mathlib.Core.List.{append_assoc}
use unibus_toy.Core.Error.{Result, ok, ◌>>=◌, internal, invalid_device_kind, invalid_storage_tier}
use unibus_toy.Core.Bytes.{be_bytes, length-be_bytes, Fits}
use unibus_toy.Core.DeviceKind
use unibus_toy.Core.DeviceKind.{DeviceKind}
use unibus_toy.Core.StorageTier
use unibus_toy.Core.StorageTier.{StorageTier}
use unibus_toy.Wire.Codec.{read_be, ok_or}
use unibus_toy.Control.Cursor.{reads}

pub record DeviceProfileEntry : Type 0 where
  pub node_id : ℕ
  pub device_id : ℕ
  pub kind : DeviceKind
  pub tier : StorageTier
  pub capacity_bytes : ℕ
  pub peak_read_bw_mbps : ℕ
  pub peak_write_bw_mbps : ℕ
  pub read_latency_ns_p50 : ℕ
  pub write_latency_ns_p50 : ℕ
  pub used_bytes : ℕ
  pub recent_rps : ℕ

unfoldable pub encode : DeviceProfileEntry → List ℕ
encode p =
    be_bytes 2 p.node_id
    ++ (be_bytes 2 p.device_id
        ++ (be_bytes 1 (DeviceKind.to_u8 p.kind)
            ++ (be_bytes 1 (StorageTier.to_u8 p.tier)
                ++ (be_bytes 8 p.capacity_bytes
                    ++ (be_bytes 4 p.peak_read_bw_mbps
                        ++ (be_bytes 4 p.peak_write_bw_mbps
                            ++ (be_bytes 4 p.read_latency_ns_p50
                                ++ (be_bytes 4 p.write_latency_ns_p50
                                    ++ (be_bytes 8 p.used_bytes
                                        ++ (be_bytes 4 p.recent_rps))))))))))

unfoldable pub decode : List ℕ → Result DeviceProfileEntry
decode cur = do
  (node_id, cur) ← read_be 2 cur
  (device_id, cur) ← read_be 2 cur
  (kind_u8, cur) ← read_be 1 cur
  kind ← ok_or (DeviceKind.from_u8 kind_u8) (internal (invalid_device_kind kind_u8))
  (tier_u8, cur) ← read_be 1 cur
  tier ← ok_or (StorageTier.from_u8 tier_u8) (internal (invalid_storage_tier tier_u8))
  (capacity_bytes, cur) ← read_be 8 cur
  (peak_read_bw_mbps, cur) ← read_be 4 cur
  (peak_write_bw_mbps, cur) ← read_be 4 cur
  (read_latency_ns_p50, cur) ← read_be 4 cur
  (write_latency_ns_p50, cur) ← read_be 4 cur
  (used_bytes, cur) ← read_be 8 cur
  (recent_rps, _) ← read_be 4 cur
  ok (record {
    node_id = node_id;
    device_id = device_id;
    kind = kind;
    tier = tier;
    capacity_bytes = capacity_bytes;
    peak_read_bw_mbps = peak_read_bw_mbps;
    peak_write_bw_mbps = peak_write_bw_mbps;
    read_latency_ns_p50 = read_latency_ns_p50;
    write_latency_ns_p50 = write_latency_ns_p50;
    used_bytes = used_bytes;
    recent_rps = recent_rps;
  })

-- The payloads whose fields are values of their types.
pub record IsDeviceProfileEntry (p : DeviceProfileEntry) : Type 0 where
  pub node_id : Fits 2 p.node_id
  pub device_id : Fits 2 p.device_id
  pub capacity_bytes : Fits 8 p.capacity_bytes
  pub peak_read_bw_mbps : Fits 4 p.peak_read_bw_mbps
  pub peak_write_bw_mbps : Fits 4 p.peak_write_bw_mbps
  pub read_latency_ns_p50 : Fits 4 p.read_latency_ns_p50
  pub write_latency_ns_p50 : Fits 4 p.write_latency_ns_p50
  pub used_bytes : Fits 8 p.used_bytes
  pub recent_rps : Fits 4 p.recent_rps

pub decode-encode :
    (p : DeviceProfileEntry) (rest : List ℕ)
    → IsDeviceProfileEntry p
    → decode (encode p ++ rest) ≡ ok p
unfolding decode encode
decode-encode p rest v = simp (
  append_assoc,
  reads v.node_id,
  reads v.device_id,
  reads (DeviceKind.to_u8-Fits p.kind),
  DeviceKind.from_u8-to_u8 p.kind,
  reads (StorageTier.to_u8-Fits p.tier),
  StorageTier.from_u8-to_u8 p.tier,
  reads v.capacity_bytes,
  reads v.peak_read_bw_mbps,
  reads v.peak_write_bw_mbps,
  reads v.read_latency_ns_p50,
  reads v.write_latency_ns_p50,
  reads v.used_bytes,
  reads v.recent_rps,
)

-- An entry is 42 bytes.
pub encode-short : (p : DeviceProfileEntry) → Fits 4 (length (encode p))
unfolding encode
encode-short p = record { below = simp (length-append, length-be_bytes) (omega arith) }
