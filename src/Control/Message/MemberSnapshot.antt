-- ===== src/Control/Message/MemberSnapshot.antt =====
-- crates/ub-control/src/message.rs: `MemberSnapshotPayload`, the payload of MEMBER_SNAPSHOT.
use unibus_toy.Base.{ℕ, zero, suc, ◌≡◌, refl, List, [], ◌∷◌, ◌++◌, length, All}
use mathlib.Core.List.{append_assoc}
use unibus_toy.Core.Error.{Result, ok, ◌>>=◌}
use unibus_toy.Core.Bytes.{be_bytes, Fits}
use unibus_toy.Wire.Codec.{read_be}
use unibus_toy.Control.Cursor.{encode_bytes, read_text, IsText, reads, read_text-encode}

pub record SnapshotNodeInfo : Type 0 where
  pub node_id : ℕ
  pub state : ℕ
  pub data_addr : List ℕ
  pub control_addr : List ℕ
  pub epoch : ℕ

pub record MemberSnapshotPayload : Type 0 where
  pub nodes : List SnapshotNodeInfo

-- One turn of the loop of `encode`.
unfoldable pub encode_node : SnapshotNodeInfo → List ℕ
encode_node n =
    be_bytes 2 n.node_id
    ++ (be_bytes 1 n.state
        ++ (be_bytes 4 n.epoch ++ (encode_bytes n.data_addr ++ encode_bytes n.control_addr)))

unfoldable pub encode_nodes : List SnapshotNodeInfo → List ℕ
encode_nodes [] = []
encode_nodes (n ∷ ns) = encode_node n ++ encode_nodes ns

unfoldable pub encode : MemberSnapshotPayload → List ℕ
encode p = be_bytes 4 (length p.nodes) ++ encode_nodes p.nodes

-- One turn of the loop of `decode`, which goes on where this one stopped.
unfoldable pub decode_node : List ℕ → Result (SnapshotNodeInfo × List ℕ)
decode_node cur = do
  (node_id, cur) ← read_be 2 cur
  (state, cur) ← read_be 1 cur
  (epoch, cur) ← read_be 4 cur
  (data_addr, cur) ← read_text cur
  (control_addr, cur) ← read_text cur
  let node : SnapshotNodeInfo = record {
    node_id = node_id;
    state = state;
    data_addr = data_addr;
    control_addr = control_addr;
    epoch = epoch;
  }
  ok (node, cur)

unfoldable pub decode_nodes : ℕ → List ℕ → Result (List SnapshotNodeInfo)
decode_nodes zero cur = ok []
decode_nodes (suc count) cur = do
  (node, cur) ← decode_node cur
  nodes ← decode_nodes count cur
  ok (node ∷ nodes)

unfoldable pub decode : List ℕ → Result MemberSnapshotPayload
decode cur = do
  (count, cur) ← read_be 4 cur
  nodes ← decode_nodes count cur
  ok (record { nodes = nodes })

pub record IsNode (n : SnapshotNodeInfo) : Type 0 where
  pub node_id : Fits 2 n.node_id
  pub state : Fits 1 n.state
  pub data_addr : IsText n.data_addr
  pub control_addr : IsText n.control_addr
  pub epoch : Fits 4 n.epoch

pub record IsMemberSnapshot (p : MemberSnapshotPayload) : Type 0 where
  pub count : Fits 4 (length p.nodes)
  pub nodes : All IsNode p.nodes

decode_node-encode_node :
    {n : SnapshotNodeInfo}
    → IsNode n
    → (rest : List ℕ) → decode_node (encode_node n ++ rest) ≡ ok (n, rest)
unfolding decode_node encode_node
decode_node-encode_node v rest = simp (
  append_assoc,
  reads v.node_id,
  reads v.state,
  reads v.epoch,
  read_text-encode v.data_addr,
  read_text-encode v.control_addr,
)

decode_nodes-encode_nodes :
    (ns : List SnapshotNodeInfo) (rest : List ℕ)
    → All IsNode ns
    → decode_nodes (length ns) (encode_nodes ns ++ rest) ≡ ok ns
unfolding decode_nodes encode_nodes
decode_nodes-encode_nodes [] rest v = refl
decode_nodes-encode_nodes (n ∷ ns) rest v =
    simp (append_assoc, decode_node-encode_node v.0, decode_nodes-encode_nodes ns rest v.1)

pub decode-encode :
    (p : MemberSnapshotPayload) (rest : List ℕ)
    → IsMemberSnapshot p
    → decode (encode p ++ rest) ≡ ok p
unfolding decode encode
decode-encode p rest v =
    simp (append_assoc, reads v.count, decode_nodes-encode_nodes p.nodes rest v.nodes)
