-- ===== src/Control/Message/AllocReq.antt =====
-- crates/ub-control/src/message.rs: `AllocReqPayload`, the payload of ALLOC_REQ.
use unibus_toy.Base.{ℕ, ◌≡◌, List, ◌++◌}
use mathlib.Core.List.{append_assoc}
use unibus_toy.Core.Error.{
  Result, ok, ◌>>=◌, internal, invalid_access_pattern, invalid_capacity_class,
  invalid_latency_class,
}
use unibus_toy.Core.Bytes.{be_bytes, Fits}
use unibus_toy.Core.AccessPattern
use unibus_toy.Core.AccessPattern.{AccessPattern}
use unibus_toy.Core.CapacityClass
use unibus_toy.Core.CapacityClass.{CapacityClass}
use unibus_toy.Core.LatencyClass
use unibus_toy.Core.LatencyClass.{LatencyClass}
use unibus_toy.Wire.Codec.{read_be, ok_or}
use unibus_toy.Control.Cursor.{reads}

pub record AllocReqPayload : Type 0 where
  pub region_id : ℕ
  pub size : ℕ
  pub access : AccessPattern
  pub latency_class : LatencyClass
  pub capacity_class : CapacityClass
  pub pin_kind : ℕ
  pub expected_readers : ℕ
  pub requester_node_id : ℕ

unfoldable pub encode : AllocReqPayload → List ℕ
encode p =
    be_bytes 8 p.region_id
    ++ (be_bytes 8 p.size
        ++ (be_bytes 1 (AccessPattern.to_u8 p.access)
            ++ (be_bytes 1 (LatencyClass.to_u8 p.latency_class)
                ++ (be_bytes 1 (CapacityClass.to_u8 p.capacity_class)
                    ++ (be_bytes 1 p.pin_kind
                        ++ (be_bytes 4 p.expected_readers ++ (be_bytes 2 p.requester_node_id)))))))

unfoldable pub decode : List ℕ → Result AllocReqPayload
decode cur = do
  (region_id, cur) ← read_be 8 cur
  (size, cur) ← read_be 8 cur
  (access_u8, cur) ← read_be 1 cur
  access ← ok_or (AccessPattern.from_u8 access_u8) (internal (invalid_access_pattern access_u8))
  (lc_u8, cur) ← read_be 1 cur
  latency_class ← ok_or (LatencyClass.from_u8 lc_u8) (internal (invalid_latency_class lc_u8))
  (cc_u8, cur) ← read_be 1 cur
  capacity_class ← ok_or (CapacityClass.from_u8 cc_u8) (internal (invalid_capacity_class cc_u8))
  (pin_kind, cur) ← read_be 1 cur
  (expected_readers, cur) ← read_be 4 cur
  (requester_node_id, _) ← read_be 2 cur
  ok (record {
    region_id = region_id;
    size = size;
    access = access;
    latency_class = latency_class;
    capacity_class = capacity_class;
    pin_kind = pin_kind;
    expected_readers = expected_readers;
    requester_node_id = requester_node_id;
  })

-- The payloads whose fields are values of their types.
pub record IsAllocReq (p : AllocReqPayload) : Type 0 where
  pub region_id : Fits 8 p.region_id
  pub size : Fits 8 p.size
  pub pin_kind : Fits 1 p.pin_kind
  pub expected_readers : Fits 4 p.expected_readers
  pub requester_node_id : Fits 2 p.requester_node_id

pub decode-encode :
    (p : AllocReqPayload) (rest : List ℕ) → IsAllocReq p → decode (encode p ++ rest) ≡ ok p
unfolding decode encode
decode-encode p rest v = simp (
  append_assoc,
  reads v.region_id,
  reads v.size,
  reads (AccessPattern.to_u8-Fits p.access),
  AccessPattern.from_u8-to_u8 p.access,
  reads (LatencyClass.to_u8-Fits p.latency_class),
  LatencyClass.from_u8-to_u8 p.latency_class,
  reads (CapacityClass.to_u8-Fits p.capacity_class),
  CapacityClass.from_u8-to_u8 p.capacity_class,
  reads v.pin_kind,
  reads v.expected_readers,
  reads v.requester_node_id,
)
