-- ===== src/Control/Plane/Joining.antt =====
-- What a MEMBER_SNAPSHOT does to the connections of its receiver
-- (crates/ub-control/src/control.rs).
use unibus_toy.Base.{
  ℕ, ◌≡◌, refl, ◌∙◌, inl, inr, Bool, false, not, ◌&&◌, ◌||◌, none, List, [], ◌∷◌, arith, ◌==◌,
  if◌then◌else◌, Bool-cases,
}
use unibus_toy.Control.Message.MemberSnapshot.{SnapshotNodeInfo}
use unibus_toy.Control.Member.{get_peer_tx}
use unibus_toy.Control.Member.Entries.{find-upsert}
use unibus_toy.Control.Plane.{Plane, notify}
use unibus_toy.Control.Plane.Process.{enter, snapshot_info, enter_snapshot, enter_listed}

-- The snapshot has an entry of the node `q`, which is not the receiver.
abbrev pub listed : ℕ → ℕ → List SnapshotNodeInfo → Bool
listed self q [] = false
listed self q (n ∷ ns) = (n.node_id == q && not (n.node_id == self)) || listed self q ns

get_peer_tx-enter_listed :
    (self now q : ℕ) (n : SnapshotNodeInfo) (p : Plane)
    → get_peer_tx q (enter_listed self now n p).members
      ≡ (if n.node_id == q && not (n.node_id == self) then none else get_peer_tx q p.members)
unfolding enter_listed get_peer_tx enter notify snapshot_info
get_peer_tx-enter_listed self now q n p = elim (Bool-cases (n.node_id == self)) [
  | inl own ↦ rw (own, enter_listed) (ground arith)
  | inr peer ↦
      let there = find-upsert q (snapshot_info n now) p.members in
      rw (peer, enter_listed, get_peer_tx, enter, there) (ground arith)
]

-- After a MEMBER_SNAPSHOT no other node that it lists has a channel, connected or not, and every
-- node that it does not list has the channel that it had.
pub get_peer_tx-enter_snapshot :
    (self now q : ℕ) (ns : List SnapshotNodeInfo) (p : Plane)
    → get_peer_tx q (enter_snapshot self now ns p).members
      ≡ (if listed self q ns then none else get_peer_tx q p.members)
unfolding enter_snapshot
get_peer_tx-enter_snapshot self now q [] p = refl
get_peer_tx-enter_snapshot self now q (n ∷ ns) p =
    get_peer_tx-enter_snapshot self now q ns (enter_listed self now n p)
    ∙ rw (get_peer_tx-enter_listed self now q n p) (ground arith)
