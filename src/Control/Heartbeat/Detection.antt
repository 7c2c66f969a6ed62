-- ===== src/Control/Heartbeat/Detection.antt =====
-- When the heartbeat loop of crates/ub-control/src/control.rs suspects a node and gives it up.
use unibus_toy.Base.{
  ℕ, ◌≡◌, refl, ◌∙◌, ◌⊎◌, inl, inr, Bool, false, Option, some, List, [], ◌∷◌, leb, ◌==◌, ==_iff,
  arith, Bool-cases, Option-cases, All, map,
}
use mathlib.Core.Option
use unibus_toy.Base.Assoc.{number_key, contains_key}
use unibus_toy.Control.Member.{
  NodeInfo, NodeState, active, down, is_suspect, is_down, find, alter, mark_down, mark_suspect,
  mark_active, suspect_if_active, list, without_tx, active_peer_senders,
}
use unibus_toy.Control.Member.Entries.{find-alter}
use unibus_toy.Control.ControlMsg.{ControlMsg, heartbeat}
use unibus_toy.Control.Plane.{Plane, send, Config, notify, send_to_each}
use unibus_toy.Control.Heartbeat.{
  Missed, is_late, suspect_node, give_up, judge, recover, check_seen, check_node, check_nodes, tick,
}

-- The state of a node, as the plane has it.
abbrev pub state_in : ℕ → Plane → Option NodeState
state_in q p = Option.map (λ (n : NodeInfo). n.state) (find q p.members.nodes)

-- A node of the list that the loop goes through was heard in time.
abbrev pub Heard : Config → ℕ → ℕ → NodeInfo → Type 0
Heard config now q n =
    n.node_id ≡ q → (t : ℕ) × (n.last_seen ≡ some t) × (is_late config now t ≡ false)

-- The plane says of a node what it said, or that the node is active.
abbrev pub Spared : ℕ → Plane → Plane → Type 0
Spared q p p' = (state_in q p' ≡ state_in q p) ⊎ (state_in q p' ≡ some active)

-- A write to another entry, and one that makes the node active.
other_entry :
    (k q : ℕ) (f : NodeInfo → NodeInfo) (ns : List NodeInfo)
    → ((n : NodeInfo) → (f n).node_id ≡ n.node_id)
    → (k == q) ≡ false
    → find q (alter k f ns) ≡ find q ns
other_entry k q f ns kept other = rw (find-alter k q f ns kept) (rw other refl)

pub suspect-node_id : (n : NodeInfo) → (suspect_if_active n).node_id ≡ n.node_id
unfolding suspect_if_active
suspect-node_id n = ground arith

suspect_node-other :
    (q : ℕ) (n : NodeInfo) (p : Plane)
    → (n.node_id == q) ≡ false
    → state_in q (suspect_node n p) ≡ state_in q p
unfolding suspect_node notify mark_suspect
suspect_node-other q n p other =
    ground (arith, other_entry n.node_id q suspect_if_active p.members.nodes suspect-node_id other)

give_up-other :
    (config : Config) (count q : ℕ) (n : NodeInfo) (p : Plane)
    → (n.node_id == q) ≡ false
    → state_in q (give_up config count n p) ≡ state_in q p
unfolding give_up notify mark_down
give_up-other config count q n p other = ground (
  arith,
  other_entry n.node_id q (λ (n : NodeInfo). record n { state = down }) p.members.nodes (λ n. refl)
      other,
)

judge-other :
    (config : Config) (count q : ℕ) (n : NodeInfo) (p : Plane)
    → (n.node_id == q) ≡ false
    → state_in q (judge config count n p) ≡ state_in q p
unfolding judge
judge-other config count q n p other = elim (Bool-cases (leb config.fail_after count)) [
  | inl many ↦
      rw (many, judge)
        (give_up-other config count q n (suspect_node n p) other ∙ suspect_node-other q n p other)
  | inr few ↦ rw (few, judge) refl
]

recover-Spared : (q : ℕ) (n : NodeInfo) (p : Plane) → Spared q p (recover n p)
unfolding recover notify mark_active
recover-Spared q n p =
    let activate : NodeInfo → NodeInfo = λ n. record n { state = active } in
    let after = find-alter n.node_id q activate p.members.nodes (λ m. refl) in
    elim (Bool-cases (is_suspect n.state)) [
      | inr well ↦ inl (rw (well, recover) refl)
      | inl suspected ↦ ground (arith, after)
    ]

Spared-trans : (q : ℕ) (p p' p'' : Plane) → Spared q p p' → Spared q p' p'' → Spared q p p''
Spared-trans q p p' p'' (inl e) (inl f) = inl (f ∙ e)
Spared-trans q p p' p'' (inr e) (inl f) = inr (f ∙ e)
Spared-trans q p p' p'' h (inr f) = inr f

check_seen-Spared :
    (config : Config) (now t q : ℕ) (n : NodeInfo) (s : Missed × Plane)
    → (is_late config now t ≡ false) ⊎ ((n.node_id == q) ≡ false)
    → Spared q s.1 (check_seen config now t n s).1
unfolding check_seen
check_seen-Spared config now t q n s h = elim (Bool-cases (is_late config now t)) [
  | inl late ↦ inl (
      rw (late, check_seen)
        (judge-other config _ q n s.1
          (elim h [ inl heard ↦ cc (late, heard) | inr other ↦ other ])))
  | inr early ↦ elim (Bool-cases (contains_key n.node_id s.0)) [
    | inl missed ↦ rw (early, missed, check_seen) (recover-Spared q n s.1)
    | inr well ↦ inl (rw (early, well, check_seen) refl)
  ]
]

-- A check of one node, which was heard in time if it is `q`.
check_node-Spared :
    (config : Config) (local now q : ℕ) (n : NodeInfo) (s : Missed × Plane)
    → Heard config now q n
    → Spared q s.1 (check_node config local now n s).1
unfolding check_node
check_node-Spared config local now q n s heard = elim (Bool-cases (n.node_id == local)) [
  | inl own ↦ inl (rw (own, check_node) refl)
  | inr peer ↦ elim (Bool-cases (is_down n.state)) [
    | inl gone ↦ inl (rw (peer, gone, check_node) refl)
    | inr there ↦ elim (Option-cases n.last_seen) [
      | inl never ↦ inl (rw (peer, there, never, check_node) refl)
      | inr (t, seen) ↦
          let spared = check_seen-Spared config now t q n s (elim (Bool-cases (n.node_id == q)) [
            | inl same ↦
                let (t', seen', early) = heard ((==_iff n.node_id q).0 same) in
                let one : t' ≡ t = cc (seen, seen') in inl (rw one at early)
            | inr other ↦ inr other
          ]) in
          simp (peer, there, seen, check_node) spared
    ]
  ]
]

pub check_nodes-Spared :
    (config : Config) (local now q : ℕ) (ns : List NodeInfo) (s : Missed × Plane)
    → All (Heard config now q) ns
    → Spared q s.1 (check_nodes config local now ns s).1
unfolding check_nodes
check_nodes-Spared config local now q [] s heard = inl refl
check_nodes-Spared config local now q (n ∷ ns) s heard =
    let s' = check_node config local now n s in
    Spared-trans q s.1 s'.1 (check_nodes config local now ns s').1
      (check_node-Spared config local now q n s heard.0)
      (check_nodes-Spared config local now q ns s' heard.1)

members-send_to_each :
    (is_open : ℕ → Bool) (m : ControlMsg) (senders : List (ℕ × ℕ)) (p : Plane)
    → (send_to_each is_open m senders p).members ≡ p.members
unfolding send_to_each send
members-send_to_each is_open m [] p = refl
members-send_to_each is_open m ((id, tx) ∷ senders) p =
    members-send_to_each is_open m senders (send is_open tx m p) ∙ ground arith

list-All :
    (P : NodeInfo → Type 0) (ns : List NodeInfo)
    → ((n : NodeInfo) → P n → P (without_tx n))
    → All P ns
    → All P (map without_tx ns)
list-All P [] f h = tt
list-All P (n ∷ ns) f h = (f n h.0, list-All P ns f h.1)

-- A tick of the heartbeat loop neither suspects nor gives up a node whose every entry was last
-- seen within the time allowed: the table says of it what it said before, or that it is active.
pub tick-Spared :
    (is_open : ℕ → Bool) (config : Config) (now q : ℕ) (missed : Missed) (p : Plane)
    → All (Heard config now q) p.members.nodes
    → Spared q p (tick is_open config now (missed, p)).1
unfolding tick list without_tx
tick-Spared is_open config now q missed p heard =
    let senders = active_peer_senders p.members in
    let beat = heartbeat (record { node_id = p.members.local_node_id; timestamp = now }) in
    let beaten = send_to_each is_open beat senders p in
    let same : beaten.members ≡ p.members = members-send_to_each is_open beat senders p in
    let shown : All (Heard config now q) (list beaten.members) =
      rw same (list-All (Heard config now q) p.members.nodes (λ n h. h) heard) in
    let spared =
      check_nodes-Spared config p.members.local_node_id now q (list beaten.members) (missed, beaten)
        shown in
    Spared-trans q p beaten (tick is_open config now (missed, p)).1 (inl (rw same refl)) spared
