-- ===== src/Tests/Control.antt =====
-- crates/ub-control at concrete inputs.
use unibus_toy.Base.{
  ℕ, ◌≡◌, refl, Bool, true, false, none, some, List, [], ◌∷◌, ◌++◌, arith, if◌then◌else◌,
}
use unibus_toy.Core.Error.{ok}
use unibus_toy.Core.Bytes.{be_bytes}
use unibus_toy.Base.Assoc.{lookup}
use unibus_toy.Wire.Codec.Rejection.{Returns}
use unibus_toy.Control.Cursor.{encode_bytes, is_utf8, utf8_from}
use unibus_toy.Control.ControlMsg.{hello, encode, encode_payload, decode}
use unibus_toy.Control.ControlMsg.RoundTrip.{decode_msg-encode_msg}
use unibus_toy.Control.ControlMsg.Rejection.{IsDecoded, decode_msg_accepts}
use unibus_toy.Control.Message.Hello.{HelloPayload, IsHello}
use unibus_toy.Control.Message.Hello
use unibus_toy.Control.Message.MemberSnapshot.{SnapshotNodeInfo}
use unibus_toy.Control.Member.{
  NodeInfo, active, down, get_peer_tx, find, upsert, upsert_nodes, alter, merge,
}
use unibus_toy.Control.Plane.{Plane, Config, notify, send, send_existing_mrs}
use unibus_toy.Control.Plane.Process.{enter_snapshot, process, enter, hello_info}
use unibus_toy.Control.Plane.Joining.{listed, get_peer_tx-enter_snapshot}
use unibus_toy.Control.Heartbeat.{Missed, count_of, is_late, tick, check_node}
use unibus_toy.Control.Heartbeat.Detection.{Spared, state_in, tick-Spared}
use unibus_toy.Control.Heartbeat.Rejoin.{IsLost, hello-Down, after_hello}

-- "n1:7" as its bytes
abbrev address : List ℕ
address = 0x6E ∷ 0x31 ∷ 0x3A ∷ 0x37 ∷ []

abbrev greeting : HelloPayload
greeting = record {
  node_id = 2;
  version = 1;
  local_epoch = 77;
  initial_credits = 64;
  data_addr = address;
}

greeting-IsHello : IsHello greeting
unfolding is_utf8 utf8_from
greeting-IsHello = record {
  node_id = record { below = omega arith };
  version = record { below = omega arith };
  local_epoch = record { below = omega arith };
  initial_credits = record { below = omega arith };
  data_addr = record { short = record { below = omega arith }; utf8 = refl };
}

decode_msg-encode_msg_example :
    decode (encode (hello greeting) ++ (9 ∷ 9 ∷ [])) ≡ ok (hello greeting)
decode_msg-encode_msg_example =
    decode_msg-encode_msg (hello greeting) (9 ∷ 9 ∷ []) greeting-IsHello
      (record { below = unfold encode_payload Hello.encode encode_bytes be_bytes in omega arith })

-- A message whose payload is cut off, and one of two bytes.
abbrev cut : List ℕ
cut = 0 ∷ 0 ∷ 0 ∷ 9 ∷ 0x1D ∷ 1 ∷ 2 ∷ []

decode_msg_accepts_example : Returns (IsDecoded cut) (decode cut)
decode_msg_accepts_example = decode_msg_accepts cut

-- Bytes that are no text: a surrogate, an overlong form and a lone continuation byte.
no_text :
    (is_utf8 (0xED ∷ 0xA0 ∷ 0x80 ∷ []) ≡ false)
    × (is_utf8 (0xC0 ∷ 0x80 ∷ []) ≡ false)
    × (is_utf8 (0x80 ∷ []) ≡ false)
    × (is_utf8 (0xE2 ∷ 0x82 ∷ 0xAC ∷ []) ≡ true)
unfolding is_utf8 utf8_from
no_text = (refl, refl, refl, refl)

-- Node 1 with its peer 2, which is connected by channel 5 and was last seen at 1000.
abbrev config : Config
config = record {
  node_id = 1;
  control_listen = [];
  data_listen = [];
  initial_credits = 64;
  interval_ms = 100;
  fail_after = 3;
}

abbrev peer : NodeInfo
peer = record {
  node_id = 2;
  state = active;
  control_addr = [];
  data_addr = address;
  epoch = 77;
  initial_credits = 64;
  last_seen = some 1000;
  tx = some 5;
}

abbrev plane : Plane
plane = record {
  members = record { local_node_id = 1; nodes = peer ∷ [] };
  mr_cache = [];
  sent = [];
  events = [];
}

abbrev always : ℕ → Bool
always tx = true

-- The seed lists itself in its snapshot.
abbrev seed_entry : SnapshotNodeInfo
seed_entry = record { node_id = 2; state = 1; data_addr = address; control_addr = []; epoch = 77 }

get_peer_tx-enter_snapshot_example :
    get_peer_tx 2 (enter_snapshot 1 1200 (seed_entry ∷ []) plane).members
    ≡ (if listed 1 2 (seed_entry ∷ []) then none else get_peer_tx 2 plane.members)
get_peer_tx-enter_snapshot_example = get_peer_tx-enter_snapshot 1 1200 2 (seed_entry ∷ []) plane

tick-Spared_example : Spared 2 plane (tick always config 1200 ([], plane)).1
tick-Spared_example =
    tick-Spared always config 1200 2 [] plane ((λ e. (1000, refl, unfold is_late in refl)), tt)

-- The peer missed six heartbeats, went down, and greets again; the tick at 2000 comes first.
abbrev lost_peer : NodeInfo
lost_peer = record peer { state = down }

abbrev lost_plane : Plane
lost_plane = record plane { members = record { local_node_id = 1; nodes = lost_peer ∷ [] } }

abbrev misses : Missed
misses = (2, 6) ∷ []

abbrev greeted : Plane
greeted = after_hello always config none 7 1990 5 greeting lost_plane

greeted-peer : find 2 greeted.members.nodes ≡ some peer
unfolding find process enter notify send send_existing_mrs upsert upsert_nodes alter merge
    hello_info
greeted-peer = refl

lost_peer-IsLost : IsLost config 2000 lost_peer misses
unfolding is_late count_of lookup
lost_peer-IsLost = record {
  seen = 1000;
  last_seen = refl;
  late = refl;
  misses = omega arith;
  counted = omega arith;
}

hello-Down_example :
    (peer.state ≡ active)
    × (state_in 2 (check_node config 1 2000 peer (misses, greeted)).1 ≡ some down)
hello-Down_example =
    hello-Down always config none 7 1990 5 greeting lost_plane lost_peer peer misses 1 2000
      (unfold find in refl) greeted-peer refl lost_peer-IsLost
