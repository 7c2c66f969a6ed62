-- ===== src/Control/Message/Fetch.antt =====
-- crates/ub-control/src/message.rs: `FetchPayload`, the payload of FETCH.
use unibus_toy.Base.{ℕ, ◌≡◌, List, ◌++◌}
use mathlib.Core.List.{append_assoc}
use unibus_toy.Core.Error.{Result, ok, ◌>>=◌}
use unibus_toy.Core.Bytes.{be_bytes, Fits}
use unibus_toy.Wire.Codec.{read_be}
use unibus_toy.Control.Cursor.{reads}

pub record FetchPayload : Type 0 where
  pub region_id : ℕ
  pub offset : ℕ
  pub len : ℕ
  pub requester_node_id : ℕ

unfoldable pub encode : FetchPayload → List ℕ
encode p =
    be_bytes 8 p.region_id
    ++ (be_bytes 8 p.offset ++ (be_bytes 4 p.len ++ (be_bytes 2 p.requester_node_id)))

unfoldable pub decode : List ℕ → Result FetchPayload
decode cur = do
  (region_id, cur) ← read_be 8 cur
  (offset, cur) ← read_be 8 cur
  (len, cur) ← read_be 4 cur
  (requester_node_id, _) ← read_be 2 cur
  ok (record {
    region_id = region_id;
    offset = offset;
    len = len;
    requester_node_id = requester_node_id;
  })

-- The payloads whose fields are values of their types.
pub record IsFetch (p : FetchPayload) : Type 0 where
  pub region_id : Fits 8 p.region_id
  pub offset : Fits 8 p.offset
  pub len : Fits 4 p.len
  pub requester_node_id : Fits 2 p.requester_node_id

pub decode-encode :
    (p : FetchPayload) (rest : List ℕ) → IsFetch p → decode (encode p ++ rest) ≡ ok p
unfolding decode encode
decode-encode p rest v =
    simp (append_assoc, reads v.region_id, reads v.offset, reads v.len, reads v.requester_node_id)
