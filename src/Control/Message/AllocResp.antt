-- ===== src/Control/Message/AllocResp.antt =====
-- crates/ub-control/src/message.rs: `AllocRespPayload`, the payload of ALLOC_RESP.
use unibus_toy.Base.{ℕ, ◌≡◌, List, ◌++◌}
use mathlib.Core.List.{append_assoc}
use unibus_toy.Core.Error.{Result, ok, ◌>>=◌}
use unibus_toy.Core.Bytes.{be_bytes, Fits}
use unibus_toy.Wire.Codec.{read_be}
use unibus_toy.Control.Cursor.{reads}

pub record AllocRespPayload : Type 0 where
  pub region_id : ℕ
  pub ub_va : ℕ
  pub home_node_id : ℕ
  pub device_id : ℕ
  pub mr_handle : ℕ
  pub base_offset : ℕ
  pub error_code : ℕ

unfoldable pub encode : AllocRespPayload → List ℕ
encode p =
    be_bytes 8 p.region_id
    ++ (be_bytes 16 p.ub_va
        ++ (be_bytes 2 p.home_node_id
            ++ (be_bytes 2 p.device_id
                ++ (be_bytes 4 p.mr_handle
                    ++ (be_bytes 8 p.base_offset ++ (be_bytes 4 p.error_code))))))

unfoldable pub decode : List ℕ → Result AllocRespPayload
decode cur = do
  (region_id, cur) ← read_be 8 cur
  (ub_va, cur) ← read_be 16 cur
  (home_node_id, cur) ← read_be 2 cur
  (device_id, cur) ← read_be 2 cur
  (mr_handle, cur) ← read_be 4 cur
  (base_offset, cur) ← read_be 8 cur
  (error_code, _) ← read_be 4 cur
  ok (record {
    region_id = region_id;
    ub_va = ub_va;
    home_node_id = home_node_id;
    device_id = device_id;
    mr_handle = mr_handle;
    base_offset = base_offset;
    error_code = error_code;
  })

-- The payloads whose fields are values of their types.
pub record IsAllocResp (p : AllocRespPayload) : Type 0 where
  pub region_id : Fits 8 p.region_id
  pub ub_va : Fits 16 p.ub_va
  pub home_node_id : Fits 2 p.home_node_id
  pub device_id : Fits 2 p.device_id
  pub mr_handle : Fits 4 p.mr_handle
  pub base_offset : Fits 8 p.base_offset
  pub error_code : Fits 4 p.error_code

pub decode-encode :
    (p : AllocRespPayload) (rest : List ℕ) → IsAllocResp p → decode (encode p ++ rest) ≡ ok p
unfolding decode encode
decode-encode p rest v = simp (
  append_assoc,
  reads v.region_id,
  reads v.ub_va,
  reads v.home_node_id,
  reads v.device_id,
  reads v.mr_handle,
  reads v.base_offset,
  reads v.error_code,
)
