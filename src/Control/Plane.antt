-- ===== src/Control/Plane.antt =====
-- crates/ub-control/src/control.rs: what the control plane does with a message. A sender is the
-- number of its channel, `is_open` says which channels still have their reader, and the clock is an
-- argument. What a channel takes and the events of the watch channel are listed in order.
pub mod Process
pub mod Joining
use unibus_toy.Base.{
  ℕ, Bool, true, false, Option, none, some, List, [], ◌∷◌, ◌++◌, ◌==◌, if◌then◌else◌, map,
}
use unibus_toy.Core.Addr
use unibus_toy.Core.Mr
use unibus_toy.Core.Mr.{MrTable, MrEntry, MrPublishEvent, publish, revoke}
use unibus_toy.Core.MrCache
use unibus_toy.Core.MrCache.{MrCacheTable}
use unibus_toy.Control.ControlMsg.{
  ControlMsg, encode, hello, hello_ack, member_up, member_down, member_snapshot, mr_publish,
  mr_revoke, heartbeat, heartbeat_ack, join, device_profile_publish, alloc_req, alloc_resp,
  region_create, region_create_ok, region_delete, fetch, fetch_resp, write_lock_req,
  write_lock_granted, write_unlock, invalidate, invalidate_ack,
}
use unibus_toy.Control.Message.Hello.{HelloPayload}
use unibus_toy.Control.Message.MemberSnapshot.{SnapshotNodeInfo}
use unibus_toy.Control.Message.MrPublish.{MrPublishPayload}
use unibus_toy.Control.Member
use unibus_toy.Control.Member.{
  MemberTable, NodeInfo, NodeState, joining, active, suspect, leaving, down, upsert, mark_down,
  update_last_seen, get, list, active_peer_senders, broadcast_senders,
}

pub data PeerChangeEvent : Type 0 where
  peer_joined : ℕ → ℕ → PeerChangeEvent
  peer_recovered peer_suspect : ℕ → PeerChangeEvent
  peer_down : ℕ → ℕ → PeerChangeEvent

-- The part of `NodeConfig` that the control plane reads.
pub record Config : Type 0 where
  pub node_id : ℕ
  pub control_listen : List ℕ
  pub data_listen : List ℕ
  pub initial_credits : ℕ
  pub interval_ms : ℕ
  pub fail_after : ℕ

pub record Plane : Type 0 where
  pub members : MemberTable
  pub mr_cache : MrCacheTable
  pub sent : List (ℕ × List ℕ)
  pub events : List PeerChangeEvent

-- `peer_change_tx.send(event)`
unfoldable pub notify : PeerChangeEvent → Plane → Plane
notify event p = record p { events = p.events ++ (event ∷ []) }

-- `let _ = tx.send(msg.encode()).await`
unfoldable pub send : (ℕ → Bool) → ℕ → ControlMsg → Plane → Plane
send is_open tx msg p =
    if is_open tx then record p { sent = p.sent ++ ((tx, encode msg) ∷ []) } else p

unfoldable pub send_to_each : (ℕ → Bool) → ControlMsg → List (ℕ × ℕ) → Plane → Plane
send_to_each is_open msg [] p = p
send_to_each is_open msg ((node_id, tx) ∷ senders) p =
    send_to_each is_open msg senders (send is_open tx msg p)

unfoldable pub publication : MrEntry → ControlMsg
publication e = mr_publish (record {
  owner_node = Addr.node_id e.base_ub_addr;
  mr_handle = e.handle;
  base_ub_addr = e.base_ub_addr;
  len = e.len;
  perms = e.perms;
  device_kind = e.device.kind;
})

-- The loop of `send_existing_mrs`, which the first failure ends.
unfoldable pub publish_each : (ℕ → Bool) → ℕ → List MrEntry → Plane → Plane
publish_each is_open tx [] p = p
publish_each is_open tx (e ∷ es) p =
    let rest = publish_each is_open tx es (send is_open tx (publication e) p) in
    if is_open tx then rest else p

unfoldable pub send_existing_mrs : (ℕ → Bool) → Option MrTable → ℕ → Plane → Plane
send_existing_mrs is_open none tx p = p
send_existing_mrs is_open (some table) tx p = publish_each is_open tx (Mr.list table) p

-- The turn of the drain loop of `start` for one event of the region table.
unfoldable pub drain_event : (ℕ → Bool) → MrPublishEvent → Plane → Plane
drain_event is_open (publish info) p =
    send_to_each is_open
      (mr_publish (record {
        owner_node = info.owner_node;
        mr_handle = info.mr_handle;
        base_ub_addr = info.base_ub_addr;
        len = info.len;
        perms = info.perms;
        device_kind = info.device_kind;
      }))
      (active_peer_senders p.members) p
drain_event is_open (revoke owner_node mr_handle) p =
    send_to_each is_open (mr_revoke (record { owner_node = owner_node; mr_handle = mr_handle }))
      (active_peer_senders p.members) p

-- `shutdown`, behind its signal to the loops
unfoldable pub shutdown : (ℕ → Bool) → Config → Plane → Plane
shutdown is_open config p =
    send_to_each is_open (member_down (record { node_id = config.node_id; reason = 0 }))
      (broadcast_senders p.members) p

-- The entry of `start` for the node itself.
unfoldable pub self_info : Config → ℕ → ℕ → NodeInfo
self_info config local_epoch now = record {
  node_id = config.node_id;
  state = active;
  control_addr = config.control_listen;
  data_addr = config.data_listen;
  epoch = local_epoch;
  initial_credits = config.initial_credits;
  last_seen = some now;
  tx = none;
}
