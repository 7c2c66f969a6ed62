-- ===== src/Tests/Manager.antt =====
-- crates/ub-transport/src/manager.rs at concrete inputs: node 1 with one session, with node 2.
use unibus_toy.Base.{
  ℕ, ◌+◌, ◌%◌, ◌^◌, ◌≤◌, ◌≡◌, refl, Bool, none, [], ◌∷◌, arith, ltb, ◌==◌, if◌then◌else◌,
}
use mathlib.Core.Option
use unibus_toy.Base.Assoc.{lookup, number_key}
use unibus_toy.Core.Verb
use unibus_toy.Wire.Frame.{AckPayload, data_frame}
use unibus_toy.Wire.Codec.{encode_ack_payload}
use unibus_toy.Transport.Dedup
use unibus_toy.Transport.Dedup.Refinement.{with_window_size-IsValid}
use unibus_toy.Transport.Session.State.{SessionKey, ReliableSession, new}
use unibus_toy.Tests.Floats.{thousandths}
use unibus_toy.Transport.Manager.State.{TransportManager, session_key}
use unibus_toy.Transport.Manager.Send.{find_session}
use unibus_toy.Transport.Manager.Operations.{on_session, grant_credits, notify_peer_down}
use unibus_toy.Transport.Manager.Handlers.{wants_answer, handle_ack_frame}
use unibus_toy.Transport.Manager.Delivery.{Arrival, times_delivered, handle_all}
use unibus_toy.Transport.Manager.AtMostOnce.{IsLive, delivered_at_most_once}
use unibus_toy.Transport.Manager.Acks.{estimates, handle_ack_frame-estimates}
use unibus_toy.Transport.Manager.Calls.{grant_credits-on_session, notify_peer_down_lem}

abbrev pub start : ReliableSession ℕ
start = new 1 2 7 200 3 64

abbrev peer_key : SessionKey
peer_key = record { local_node = 1; remote_node = 2; epoch = 7 }

-- A channel is a number, and takes frames below 10.
abbrev pub accepts : ℕ → Bool
accepts channel = ltb channel 10

abbrev pub node_1 : TransportManager ℕ ℕ
node_1 = record {
  local_node_id = 1;
  sessions = (peer_key, start) ∷ [];
  peer_senders = (2, 0) ∷ [];
  rto_ms = 200;
  max_retries = 3;
  peer_epochs = (2, 7) ∷ [];
  inbound = [];
  sent = [];
}

abbrev pub write_1 : Arrival
write_1 = record {
  header = record {
    magic = 0x5542_5459;
    version = 1;
    frame_type = data_frame;
    flags = 1;
    src_node = 2;
    dst_node = 1;
    reserved = 0;
    stream_seq = 1;
    payload_len = 0;
    header_crc = 0;
  };
  ext = record {
    verb = Verb.write;
    ext_flags = 0;
    mr_handle = 4;
    jetty_src = 0;
    jetty_dst = 0;
    opaque = 9;
    frag_id = 0;
    frag_index = 0;
    frag_total = 1;
    ub_addr = 0;
    imm = none;
  };
  payload = 42 ∷ [];
}

node_1-IsLive : IsLive 2 2 start.dedup node_1
unfolding new Dedup.new Dedup.with_window_size lookup
node_1-IsLive = record {
  there = refl;
  valid = with_window_size-IsValid 1 1024 (omega arith);
  not_empty = omega arith;
  room = omega arith;
}

delivered_at_most_once_example :
    times_delivered 2 1 (handle_all accepts node_1 (write_1 ∷ write_1 ∷ [])).inbound ≤ 0 + 1
unfolding times_delivered wants_answer
delivered_at_most_once_example =
    delivered_at_most_once accepts 2 1 start.dedup node_1 (write_1 ∷ write_1 ∷ []) refl
      (refl, (refl, tt)) node_1-IsLive

grant_credits-on_session_example :
    grant_credits accepts node_1 2 20
    ≡ on_session (λ s. record s { credits_to_grant = (s.credits_to_grant + 20) % 2 ^ 32 }) node_1 2
grant_credits-on_session_example = grant_credits-on_session accepts node_1 2 20

notify_peer_down_lem_example :
    (lookup peer_key (notify_peer_down node_1 2).0.sessions
      ≡ (if peer_key.remote_node == 2 then none else lookup peer_key node_1.sessions))
    × (find_session (notify_peer_down node_1 2).0 2 ≡ none)
    × (lookup 2 (notify_peer_down node_1 2).0.peer_senders ≡ none)
notify_peer_down_lem_example = notify_peer_down_lem node_1 2 peer_key

abbrev first_ack : AckPayload
first_ack = record { ack_seq = 1; credit_grant = 3; reserved = 0; sack_bitmap = none }

handle_ack_frame-estimates_example :
    Option.map estimates (
      lookup peer_key
        (handle_ack_frame accepts 9 node_1 write_1.header (encode_ack_payload first_ack)).sessions)
    ≡ Option.map estimates (lookup peer_key node_1.sessions)
handle_ack_frame-estimates_example =
    handle_ack_frame-estimates accepts 9 node_1 write_1.header (encode_ack_payload first_ack)
      peer_key
