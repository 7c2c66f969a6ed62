-- ===== src/Control/Plane/Process.antt =====
-- crates/ub-control/src/control.rs: `process_control_message`.
use unibus_toy.Base.{ℕ, Bool, Option, none, some, List, [], ◌∷◌, ◌==◌, if◌then◌else◌, map}
use unibus_toy.Core.Mr.{MrTable}
use unibus_toy.Core.MrCache
use unibus_toy.Core.MrCache.{MrCacheTable}
use unibus_toy.Control.ControlMsg.{
  ControlMsg, hello, hello_ack, member_up, member_down, member_snapshot, mr_publish, mr_revoke,
  heartbeat, heartbeat_ack, join, device_profile_publish, alloc_req, alloc_resp, region_create,
  region_create_ok, region_delete, fetch, fetch_resp, write_lock_req, write_lock_granted,
  write_unlock, invalidate, invalidate_ack,
}
use unibus_toy.Control.Message.Join.{JoinPayload}
use unibus_toy.Control.Message.Hello.{HelloPayload}
use unibus_toy.Control.Message.MemberSnapshot.{SnapshotNodeInfo, MemberSnapshotPayload}
use unibus_toy.Control.Member.{
  MemberTable, NodeInfo, NodeState, joining, active, suspect, leaving, down, upsert, mark_down,
  update_last_seen, get, list,
}
use unibus_toy.Control.Plane.{
  Plane, Config, peer_joined, peer_down, notify, send, send_existing_mrs,
}

-- The HELLO that opens a connection, and the HELLO_ACK that answers one.
unfoldable pub own_hello : Config → ℕ → HelloPayload
own_hello config local_epoch = record {
  node_id = config.node_id;
  version = 1;
  local_epoch = local_epoch;
  initial_credits = config.initial_credits;
  data_addr = config.data_listen;
}

unfoldable pub hello_info : HelloPayload → ℕ → ℕ → NodeInfo
hello_info h peer_tx now = record {
  node_id = h.node_id;
  state = active;
  control_addr = [];
  data_addr = h.data_addr;
  epoch = h.local_epoch;
  initial_credits = h.initial_credits;
  last_seen = some now;
  tx = some peer_tx;
}

unfoldable pub join_info : JoinPayload → ℕ → ℕ → NodeInfo
join_info j peer_tx now = record {
  node_id = j.node_id;
  state = active;
  control_addr = j.control_addr;
  data_addr = j.data_addr;
  epoch = j.epoch;
  initial_credits = j.initial_credits;
  last_seen = some now;
  tx = some peer_tx;
}

unfoldable pub enter : NodeInfo → Plane → Plane
enter info p = record p { members = upsert info p.members }

unfoldable pub state_byte : NodeState → ℕ
state_byte joining = 0
state_byte active = 1
state_byte suspect = 2
state_byte leaving = 3
state_byte down = 4

unfoldable pub state_of_byte : ℕ → NodeState
state_of_byte b =
    if b == 0
    then joining
    else if b == 1
    then active
    else if b == 2
    then suspect
    else if b == 3
    then leaving
    else down

unfoldable pub snapshot_node : NodeInfo → SnapshotNodeInfo
snapshot_node n = record {
  node_id = n.node_id;
  state = state_byte n.state;
  data_addr = n.data_addr;
  control_addr = n.control_addr;
  epoch = n.epoch;
}

unfoldable pub snapshot_info : SnapshotNodeInfo → ℕ → NodeInfo
snapshot_info n now = record {
  node_id = n.node_id;
  state = state_of_byte n.state;
  control_addr = n.control_addr;
  data_addr = n.data_addr;
  epoch = n.epoch;
  initial_credits = 0;
  last_seen = some now;
  tx = none;
}

-- The turn of the loop of MEMBER_SNAPSHOT for a node.
unfoldable pub enter_listed : ℕ → ℕ → SnapshotNodeInfo → Plane → Plane
enter_listed self now n p =
    if n.node_id == self
    then p
    else notify (peer_joined n.node_id n.epoch) (enter (snapshot_info n now) p)

unfoldable pub enter_snapshot : ℕ → ℕ → List SnapshotNodeInfo → Plane → Plane
enter_snapshot self now [] p = p
enter_snapshot self now (n ∷ ns) p = enter_snapshot self now ns (enter_listed self now n p)

unfoldable pub epoch_of : ℕ → MemberTable → ℕ
epoch_of node_id t = elim (get node_id t) [ none ↦ 0 | some n ↦ n.epoch ]

-- `process_control_message`
module _ (is_open : ℕ → Bool) (config : Config) (mr_table : Option MrTable) (local_epoch now : ℕ)
    (peer_tx : ℕ) where
  unfoldable pub process : ControlMsg → Plane → Plane
  process (hello h) p = notify (peer_joined h.node_id h.local_epoch) (
      send_existing_mrs is_open mr_table peer_tx (
        send is_open peer_tx (hello_ack (own_hello config local_epoch))
          (enter (hello_info h peer_tx now) p)))
  process (hello_ack h) p =
      notify (peer_joined h.node_id h.local_epoch)
        (send_existing_mrs is_open mr_table peer_tx (enter (hello_info h peer_tx now) p))
  process (heartbeat hb) p =
      send is_open peer_tx
        (heartbeat_ack (record { node_id = config.node_id; timestamp = hb.timestamp }))
        (record p { members = update_last_seen hb.node_id now p.members })
  process (heartbeat_ack hb) p = record p { members = update_last_seen hb.node_id now p.members }
  process (member_down md) p =
      let members = mark_down md.node_id p.members in
      notify (peer_down md.node_id (epoch_of md.node_id members)) (record p { members = members })
  process (mr_publish mr) p = record p {
    mr_cache =
        MrCache.insert
          (record {
            remote_mr_handle = mr.mr_handle;
            owner_node = mr.owner_node;
            base_ub_addr = mr.base_ub_addr;
            len = mr.len;
            perms = mr.perms;
            device_kind = mr.device_kind;
          })
          p.mr_cache;
  }
  process (mr_revoke r) p = record p {
    mr_cache = MrCache.remove r.owner_node r.mr_handle p.mr_cache;
  }
  process (join j) p =
      let entered = enter (join_info j peer_tx now) p in
      let snapshot : MemberSnapshotPayload = record {
        nodes = map snapshot_node (list entered.members);
      } in
      notify (peer_joined j.node_id j.epoch) (
        send_existing_mrs is_open mr_table peer_tx
          (send is_open peer_tx (member_snapshot snapshot) entered))
  process (member_snapshot s) p = enter_snapshot config.node_id now s.nodes p
  process (member_up _) p = p
  process (device_profile_publish _) p = p
  process (alloc_req _) p = p
  process (alloc_resp _) p = p
  process (region_create _) p = p
  process (region_create_ok _) p = p
  process (region_delete _) p = p
  process (fetch _) p = p
  process (fetch_resp _) p = p
  process (write_lock_req _) p = p
  process (write_lock_granted _) p = p
  process (write_unlock _) p = p
  process (invalidate _) p = p
  process (invalidate_ack _) p = p
