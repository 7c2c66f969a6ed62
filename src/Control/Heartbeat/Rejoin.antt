-- ===== src/Control/Heartbeat/Rejoin.antt =====
-- The heartbeat loop of crates/ub-control/src/control.rs on a node that comes back.
use unibus_toy.Base.{
  ℕ, ◌+◌, ◌*◌, ◌%◌, ◌^◌, ◌≤◌, ◌<◌, ◌≡◌, refl, sym, ap, ◌∙◌, inl, inr, Bool, true, false, Option,
  none, some, List, [], ◌∷◌, leb, ◌==◌, ==_iff, ==-refl, arith, Bool-cases,
}
use mathlib.Core.Path.{subst}
use unibus_toy.Core.Mr
use unibus_toy.Base.Assoc.{number_key}
use unibus_toy.Core.Mr.{MrTable, MrEntry}
use unibus_toy.Control.ControlMsg.{hello}
use unibus_toy.Control.Message.Hello.{HelloPayload}
use unibus_toy.Control.Member.{
  NodeInfo, NodeState, active, down, is_down, is_active, find, mark_down, mark_suspect,
  suspect_if_active, upsert,
}
use unibus_toy.Control.Member.Entries.{find-alter, find-upsert, upserted}
use unibus_toy.Control.Plane.{
  Plane, Config, notify, send, send_existing_mrs, publish_each, publication,
}
use unibus_toy.Control.Plane.Process.{process, enter, hello_info}
use unibus_toy.Control.Heartbeat.{
  Missed, count_of, is_late, suspect_node, give_up, judge, check_seen, check_node,
}
use unibus_toy.Control.Heartbeat.Detection.{state_in, suspect-node_id}

-- The node has an entry.
abbrev Known : ℕ → Plane → Type 0
Known q p = (n : NodeInfo) × (find q p.members.nodes ≡ some n)

suspect_node-Known : (q : ℕ) (n : NodeInfo) (p : Plane) → Known q p → Known q (suspect_node n p)
unfolding suspect_node notify mark_suspect suspect_if_active
suspect_node-Known q n p (m, known) = elim (Bool-cases (is_active n.state)) [
  | inr other ↦ rw (other, suspect_node) (m, known)
  | inl running ↦
      let after = find-alter n.node_id q suspect_if_active p.members.nodes suspect-node_id in
      elim (Bool-cases (n.node_id == q)) [
        | inl same ↦ (suspect_if_active m, rw (running, suspect_node, after, same, known))
        | inr other ↦ (m, rw (running, suspect_node, after, other, known))
      ]
]

give_up-Down :
    (config : Config) (count : ℕ) (n : NodeInfo) (p : Plane)
    → config.fail_after * 2 < 2 ^ 32
    → config.fail_after * 2 ≤ count
    → Known n.node_id p
    → state_in n.node_id (give_up config count n p) ≡ some down
unfolding give_up notify mark_down
give_up-Down config count n p h many (m, known) =
    let e : leb (config.fail_after * 2 % 2 ^ 32) count ≡ true = ground arith in
    rw (
      e,
      give_up,
      find-alter n.node_id n.node_id (λ (n : NodeInfo). record n { state = down }) p.members.nodes
          (λ n. refl),
      ==-refl n.node_id,
      known,
    )

judge-Down :
    (config : Config) (count : ℕ) (n : NodeInfo) (p : Plane)
    → config.fail_after * 2 < 2 ^ 32
    → config.fail_after * 2 ≤ count
    → Known n.node_id p
    → state_in n.node_id (judge config count n p) ≡ some down
unfolding judge
judge-Down config count n p h many known =
    let e : leb config.fail_after count ≡ true = ground arith in
    let down_now =
      give_up-Down config count n (suspect_node n p) h many
        (suspect_node-Known n.node_id n p known) in
    rw (e, judge) down_now

is_down_eq : (s : NodeState) → is_down s ≡ true → s ≡ down
unfolding is_down
is_down_eq down h = refl
is_down_eq NodeState.joining h = cc h
is_down_eq active h = cc h
is_down_eq NodeState.suspect h = cc h
is_down_eq NodeState.leaving h = cc h

find-node_id : (q : ℕ) (n : NodeInfo) (ns : List NodeInfo) → find q ns ≡ some n → n.node_id ≡ q
unfolding find
find-node_id q n [] h = cc h
find-node_id q n (m ∷ ns) h = elim (Bool-cases (m.node_id == q)) [
  | inl same ↦
      let one : m ≡ n = cc (rw same at h) in
      subst (λ (k : NodeInfo). k.node_id ≡ q) one ((==_iff m.node_id q).0 same)
  | inr other ↦ find-node_id q n ns (rw other at h)
]

-- A node that is late, with as many misses as make it down.
pub record IsLost (config : Config) (now : ℕ) (n : NodeInfo) (missed : Missed) : Type 0 where
  pub seen : ℕ
  pub last_seen : n.last_seen ≡ some seen
  pub late : is_late config now seen ≡ true
  pub misses : config.fail_after * 2 ≤ count_of n.node_id missed + 1
  pub counted : count_of n.node_id missed + 1 < 2 ^ 32

pub check_node-Down :
    (config : Config) (local now : ℕ) (n : NodeInfo) (missed : Missed) (p : Plane)
    → (n.node_id == local) ≡ false
    → IsLost config now n missed
    → find n.node_id p.members.nodes ≡ some n
    → state_in n.node_id (check_node config local now n (missed, p)).1 ≡ some down
unfolding check_node check_seen
check_node-Down config local now n missed p peer lost known = elim (Bool-cases (is_down n.state)) [
  | inl gone ↦ simp (peer, gone, check_node, known) (ap some (is_down_eq n.state gone))
  | inr there ↦
      let e : (count_of n.node_id missed + 1) % 2 ^ 32 ≡ count_of n.node_id missed + 1 =
        omega (arith, lost.counted) in
      let down_now =
        judge-Down config (count_of n.node_id missed + 1) n p
          (omega (arith, lost.misses, lost.counted)) lost.misses (n, known) in
      simp (peer, there, lost.last_seen, lost.late, e, check_node, check_seen) down_now
]

members-publish_each :
    (is_open : ℕ → Bool) (tx : ℕ) (es : List MrEntry) (p : Plane)
    → (publish_each is_open tx es p).members ≡ p.members
unfolding publish_each send
members-publish_each is_open tx [] p = refl
members-publish_each is_open tx (e ∷ es) p =
    ground (arith, members-publish_each is_open tx es (send is_open tx (publication e) p))

members-send_existing_mrs :
    (is_open : ℕ → Bool) (table : Option MrTable) (tx : ℕ) (p : Plane)
    → (send_existing_mrs is_open table tx p).members ≡ p.members
unfolding send_existing_mrs
members-send_existing_mrs is_open none tx p = refl
members-send_existing_mrs is_open (some t) tx p = members-publish_each is_open tx (Mr.list t) p

module _ (is_open : ℕ → Bool) (config : Config) (table : Option MrTable) (epoch now tx : ℕ)
    (h : HelloPayload) (p : Plane) where
  -- The plane once the HELLO was dealt with.
  abbrev pub after_hello : Plane
  after_hello = process is_open config table epoch now tx (hello h) p

  members-after_hello : after_hello.members ≡ upsert (hello_info h tx now) p.members
  unfolding process notify enter send
  members-after_hello = members-send_existing_mrs is_open table tx _ ∙ ground arith

  -- When a node whose last sign of life is too old, and whose count of missed heartbeats is one
  -- short of twice the limit or above, greets again with HELLO, its entry is active, and the
  -- next check of that entry marks it down.
  pub hello-Down :
      (old new : NodeInfo) (missed : Missed) (local later : ℕ)
      → find h.node_id p.members.nodes ≡ some old
      → find h.node_id after_hello.members.nodes ≡ some new
      → (h.node_id == local) ≡ false
      → IsLost config later old missed
      → (new.state ≡ active)
        × (state_in h.node_id (check_node config local later new (missed, after_hello)).1
            ≡ some down)
  unfolding hello_info
  hello-Down old new missed local later had has peer lost =
      let info = hello_info h tx now in
      let there : find h.node_id after_hello.members.nodes ≡ some (upserted info (some old)) =
        rw (members-after_hello)
          (find-upsert h.node_id info p.members ∙ rw (==-refl h.node_id, had)) in
      let made : new ≡ upserted info (some old) = cc (has, there) in
      let new_id : new.node_id ≡ h.node_id = find-node_id h.node_id new _ has in
      let old_id : old.node_id ≡ h.node_id = find-node_id h.node_id old _ had in
      let one : old.node_id ≡ new.node_id = old_id ∙ sym new_id in
      let lost' : IsLost config later new missed = record {
        seen = lost.seen;
        last_seen = ap (λ (n : NodeInfo). n.last_seen) made ∙ lost.last_seen;
        late = lost.late;
        misses = rw one at lost.misses;
        counted = rw one at lost.counted;
      } in
      let check = check_node config local later new (missed, after_hello) in
      let fallen =
        check_node-Down config local later new missed after_hello (rw new_id peer) lost'
          (subst (λ (k : ℕ). find k after_hello.members.nodes ≡ some new) (sym new_id) has) in
      (
        ap (λ (n : NodeInfo). n.state) made,
        subst (λ (k : ℕ). state_in k check.1 ≡ some down) new_id fallen,
      )
