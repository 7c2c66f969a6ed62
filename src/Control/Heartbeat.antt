-- ===== src/Control/Heartbeat.antt =====
-- crates/ub-control/src/control.rs: the heartbeat loop of `start`, one tick after the other. The
-- clock is an argument, and `missed` is the map of the heartbeats that a node missed.
pub mod Detection
pub mod Rejoin
use unibus_toy.Base.{
  ℕ, ◌+◌, ◌*◌, ◌%◌, ◌^◌, Bool, Option, none, some, List, [], ◌∷◌, ltb, leb, ◌==◌, if◌then◌else◌,
}
use unibus_toy.Base.Assoc.{number_key, lookup, insert, remove, contains_key}
use unibus_toy.Control.ControlMsg.{heartbeat}
use unibus_toy.Control.Member.{
  NodeInfo, is_active, is_suspect, is_down, mark_down, mark_suspect, mark_active, list,
  active_peer_senders,
}
use unibus_toy.Control.Plane.{
  Plane, Config, peer_suspect, peer_down, peer_recovered, notify, send_to_each,
}

abbrev pub Missed : Type 0
Missed = List (ℕ × ℕ)

-- `*missed_count.entry(node_id).or_insert(0)`
unfoldable pub count_of : ℕ → Missed → ℕ
count_of node_id missed = elim (lookup node_id missed) [ none ↦ 0 | some count ↦ count ]

-- `now > last_seen + interval_ms as u64 * fail_after as u64`
unfoldable pub is_late : Config → ℕ → ℕ → Bool
is_late config now last_seen =
    ltb ((last_seen + config.interval_ms * config.fail_after % 2 ^ 64) % 2 ^ 64) now

-- What follows from the number of misses of a node, as `list` showed it.
unfoldable pub suspect_node : NodeInfo → Plane → Plane
suspect_node n p =
    if is_active n.state
    then notify (peer_suspect n.node_id) (record p { members = mark_suspect n.node_id p.members })
    else p

unfoldable pub give_up : Config → ℕ → NodeInfo → Plane → Plane
give_up config count n p =
    if leb (config.fail_after * 2 % 2 ^ 32) count
    then notify (peer_down n.node_id n.epoch) (record p { members = mark_down n.node_id p.members })
    else p

unfoldable pub judge : Config → ℕ → NodeInfo → Plane → Plane
judge config count n p =
    if leb config.fail_after count then give_up config count n (suspect_node n p) else p

unfoldable pub recover : NodeInfo → Plane → Plane
recover n p =
    if is_suspect n.state
    then notify (peer_recovered n.node_id) (record p { members = mark_active n.node_id p.members })
    else p

-- A node that was seen, and is not down.
unfoldable pub check_seen : Config → ℕ → ℕ → NodeInfo → Missed × Plane → Missed × Plane
check_seen config now last_seen n (missed, p) =
    if is_late config now last_seen
    then (let count = (count_of n.node_id missed + 1) % 2 ^ 32 in
        (insert n.node_id count missed, judge config count n p))
    else (remove n.node_id missed, if contains_key n.node_id missed then recover n p else p)

-- The turn of the loop over the nodes for one of them.
unfoldable pub check_node : Config → ℕ → ℕ → NodeInfo → Missed × Plane → Missed × Plane
check_node config local now n s =
    if n.node_id == local
    then s
    else if is_down n.state
    then s
    else elim n.last_seen [ none ↦ s | some last_seen ↦ check_seen config now last_seen n s ]

unfoldable pub check_nodes : Config → ℕ → ℕ → List NodeInfo → Missed × Plane → Missed × Plane
check_nodes config local now [] s = s
check_nodes config local now (n ∷ ns) s =
    check_nodes config local now ns (check_node config local now n s)

unfoldable pub tick : (ℕ → Bool) → Config → ℕ → Missed × Plane → Missed × Plane
tick is_open config now (missed, p) =
    let local = p.members.local_node_id in
    let beaten =
      send_to_each is_open (heartbeat (record { node_id = local; timestamp = now }))
        (active_peer_senders p.members) p in
    check_nodes config local now (list beaten.members) (missed, beaten)
