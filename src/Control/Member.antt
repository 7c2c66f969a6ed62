-- ===== src/Control/Member.antt =====
-- crates/ub-control/src/member.rs: the members of the pod as a node sees them. A sender is the
-- number of its channel.
pub mod Entries
use unibus_toy.Base.{
  ℕ, Bool, true, false, not, ◌&&◌, Option, none, some, List, [], ◌∷◌, ◌++◌, ◌==◌, if◌then◌else◌,
  map,
}
use mathlib.Core.Option

pub data NodeState : Type 0 where
  joining active suspect leaving down : NodeState

unfoldable pub is_active : NodeState → Bool
is_active active = true
is_active joining = false
is_active suspect = false
is_active leaving = false
is_active down = false

unfoldable pub is_suspect : NodeState → Bool
is_suspect suspect = true
is_suspect joining = false
is_suspect active = false
is_suspect leaving = false
is_suspect down = false

unfoldable pub is_down : NodeState → Bool
is_down down = true
is_down joining = false
is_down active = false
is_down suspect = false
is_down leaving = false

pub record NodeInfo : Type 0 where
  pub node_id : ℕ
  pub state : NodeState
  pub control_addr : List ℕ
  pub data_addr : List ℕ
  pub epoch : ℕ
  pub initial_credits : ℕ
  pub last_seen : Option ℕ
  pub tx : Option ℕ

pub record MemberTable : Type 0 where
  pub local_node_id : ℕ
  pub nodes : List NodeInfo

unfoldable pub new : ℕ → MemberTable
new local_node_id = record { local_node_id = local_node_id; nodes = [] }

-- `nodes.iter().find(|n| n.node_id == node_id)`
unfoldable pub find : ℕ → List NodeInfo → Option NodeInfo
find node_id [] = none
find node_id (n ∷ ns) = if n.node_id == node_id then some n else find node_id ns

-- A write through `nodes.iter_mut().find(|n| n.node_id == node_id)`
unfoldable pub alter : ℕ → (NodeInfo → NodeInfo) → List NodeInfo → List NodeInfo
alter node_id f [] = []
alter node_id f (n ∷ ns) =
    let rest = alter node_id f ns in if n.node_id == node_id then f n ∷ ns else n ∷ rest

-- The fields that `upsert` writes over an entry that is there.
unfoldable pub merge : NodeInfo → NodeInfo → NodeInfo
merge info existing = record existing {
  state = info.state;
  control_addr = info.control_addr;
  data_addr = info.data_addr;
  epoch = info.epoch;
  initial_credits = info.initial_credits;
  tx = info.tx;
}

unfoldable pub upsert_nodes : NodeInfo → List NodeInfo → List NodeInfo
upsert_nodes info nodes = elim (find info.node_id nodes) [
  | some existing ↦ alter info.node_id (merge info) nodes
  | none ↦ nodes ++ (info ∷ [])
]

unfoldable pub upsert : NodeInfo → MemberTable → MemberTable
upsert info t = record t { nodes = upsert_nodes info t.nodes }

unfoldable pub mark_down : ℕ → MemberTable → MemberTable
mark_down node_id t = record t {
  nodes = alter node_id (λ (n : NodeInfo). record n { state = down }) t.nodes;
}

unfoldable pub suspect_if_active : NodeInfo → NodeInfo
suspect_if_active n = if is_active n.state then record n { state = suspect } else n

unfoldable pub mark_suspect : ℕ → MemberTable → MemberTable
mark_suspect node_id t = record t { nodes = alter node_id suspect_if_active t.nodes }

unfoldable pub mark_active : ℕ → MemberTable → MemberTable
mark_active node_id t = record t {
  nodes = alter node_id (λ (n : NodeInfo). record n { state = active }) t.nodes;
}

unfoldable pub update_last_seen : ℕ → ℕ → MemberTable → MemberTable
update_last_seen node_id ts t = record t {
  nodes = alter node_id (λ (n : NodeInfo). record n { last_seen = some ts }) t.nodes;
}

unfoldable pub get_peer_tx : ℕ → MemberTable → Option ℕ
get_peer_tx node_id t = elim (find node_id t.nodes) [ none ↦ none | some n ↦ n.tx ]

unfoldable pub without_tx : NodeInfo → NodeInfo
without_tx n = record n { tx = none }

unfoldable pub list : MemberTable → List NodeInfo
list t = map without_tx t.nodes

unfoldable pub get : ℕ → MemberTable → Option NodeInfo
get node_id t = Option.map without_tx (find node_id t.nodes)

-- Another node that is not down.
unfoldable pub is_peer : ℕ → NodeInfo → Bool
is_peer local n = not (n.node_id == local) && not (is_down n.state)

unfoldable pub peer_ids : ℕ → List NodeInfo → List ℕ
peer_ids local [] = []
peer_ids local (n ∷ ns) =
    let rest = peer_ids local ns in if is_peer local n then n.node_id ∷ rest else rest

unfoldable pub active_peer_ids : MemberTable → List ℕ
active_peer_ids t = peer_ids t.local_node_id t.nodes

-- `filter_map(|n| n.tx.clone().map(|tx| (n.node_id, tx)))` behind a filter
unfoldable pub senders : (NodeInfo → Bool) → List NodeInfo → List (ℕ × ℕ)
senders wanted [] = []
senders wanted (n ∷ ns) =
    let rest = senders wanted ns in
    if wanted n then elim n.tx [ none ↦ rest | some tx ↦ (n.node_id, tx) ∷ rest ] else rest

unfoldable pub active_peer_senders : MemberTable → List (ℕ × ℕ)
active_peer_senders t = senders (is_peer t.local_node_id) t.nodes

-- The senders that `broadcast` sends to.
unfoldable pub broadcast_senders : MemberTable → List (ℕ × ℕ)
broadcast_senders t =
    senders (λ (n : NodeInfo). not (n.node_id == t.local_node_id) && is_active n.state) t.nodes
