-- ===== src/Transport/Manager/Handlers.antt =====
-- crates/ub-transport/src/manager.rs: what a frame from the network does. A decoder that takes no
-- slice out of bounds cannot panic, so the case of a panic stands with the errors.
use unibus_toy.Base.{
  ℕ, Bool, true, false, ◌||◌, Option, none, some, List, [], ◌∷◌, ◌++◌, ◌==◌, if◌then◌else◌,
}
use unibus_toy.Core.Error.{ok, err, panicked}
use unibus_toy.Core.Verb.{Verb, read_req, atomic_cas, atomic_faa}
use unibus_toy.Base.Assoc.{number_key, lookup}
use unibus_toy.Wire.Frame.{
  AckPayload, FrameHeader, DataExtHeader, FrameType, data_frame, ack_frame, credit_frame,
  contains_has_sack,
}
use unibus_toy.Wire.Codec.{decode_frame, decode_ack_payload, decode_credit_payload}
use unibus_toy.Transport.Session.State.{
  FloatOps, SessionKey, ReliableSession, ReceiveAction, active, dead, deliver, duplicate,
  out_of_order, beyond_window,
}
use unibus_toy.Transport.Session.Sending.{
  add_credits, process_ack, process_ack_for_fast_retransmit, get_retransmit_entry,
}
use unibus_toy.Transport.Session.Receiving.{receive_frame, build_ack_payload, should_send_ack}
use unibus_toy.Transport.Manager.State.{TransportManager, InboundFrame, session_key, key_of}
use unibus_toy.Transport.Manager.Frames.{build_ack_frame}
use unibus_toy.Transport.Manager.Send.{store, send_frame_to_peer}

-- `map(|e| *e.value()).unwrap_or(0)`
abbrev pub epoch_or_zero : Option ℕ → ℕ
epoch_or_zero none = 0
epoch_or_zero (some epoch) = epoch

-- The verbs whose response is sent again.
unfoldable pub wants_answer : Verb → Bool
wants_answer read_req = true
wants_answer atomic_cas = true
wants_answer atomic_faa = true
wants_answer _ = false

abbrev pub is_duplicate : ReceiveAction → Bool
is_duplicate duplicate = true
is_duplicate _ = false

abbrev pub is_out_of_order : ReceiveAction → Bool
is_out_of_order out_of_order = true
is_out_of_order _ = false

module _ {F Sender : Type 0} where
  -- The key under which the handlers look for the session with a peer.
  abbrev pub handler_key : TransportManager F Sender → ℕ → SessionKey
  handler_key m remote_node =
      key_of m remote_node (epoch_or_zero (lookup remote_node m.peer_epochs))

  unfoldable pub deliver_up : InboundFrame → TransportManager F Sender → TransportManager F Sender
  deliver_up frame m = record m { inbound = m.inbound ++ (frame ∷ []) }

  -- The acknowledgement at the end of `handle_data_frame`
  unfoldable pub acknowledge :
      (Sender → Bool)
      → ℕ
      → SessionKey
      → ReceiveAction
      → ReliableSession F
      → TransportManager F Sender
      → TransportManager F Sender
  unfolding store send_frame_to_peer
  acknowledge accepts remote_node key action s m =
      let r = build_ack_payload s (is_out_of_order action) in
      if is_duplicate action || (is_out_of_order action || should_send_ack s)
      then send_frame_to_peer accepts (store key r.0 m) s.key.remote_node
          (build_ack_frame m.local_node_id remote_node r.1)
      else m

  -- What is delivered, and whether there is an acknowledgement, by the action of the session `s`
  unfoldable pub after_receive :
      (Sender → Bool)
      → InboundFrame
      → SessionKey
      → ReceiveAction
      → ReliableSession F
      → TransportManager F Sender
      → TransportManager F Sender
  unfolding deliver_up acknowledge
  after_receive accepts frame key deliver s m =
      acknowledge accepts frame.header.src_node key deliver s (deliver_up frame m)
  after_receive accepts frame key duplicate s m =
      acknowledge accepts frame.header.src_node key duplicate s
        (if wants_answer frame.ext.verb then deliver_up frame m else m)
  after_receive accepts frame key out_of_order s m =
      acknowledge accepts frame.header.src_node key out_of_order s m
  after_receive accepts frame key beyond_window s m = m

  unfoldable pub receive_on :
      (Sender → Bool)
      → InboundFrame
      → SessionKey
      → ReliableSession F
      → TransportManager F Sender
      → TransportManager F Sender
  unfolding store after_receive
  receive_on accepts frame key s m = elim s.state [
    | dead ↦ m
    | active ↦
        let r = receive_frame s frame.seq in
        after_receive accepts frame key r.1 r.0 (store key r.0 m)
  ]

  unfoldable pub handle_data_frame :
      (Sender → Bool)
      → TransportManager F Sender
      → FrameHeader
      → DataExtHeader
      → List ℕ
      → TransportManager F Sender
  unfolding deliver_up receive_on
  handle_data_frame accepts m header ext payload =
      let key = handler_key m header.src_node in
      let frame : InboundFrame = record {
        header = header;
        ext = ext;
        payload = payload;
        seq = header.stream_seq;
      } in
      if header.stream_seq == 0 then deliver_up frame m else elim (lookup key m.sessions) [
        | none ↦ deliver_up frame m
        | some s ↦ receive_on accepts frame key s m
      ]

  unfoldable pub handle_credit_frame :
      TransportManager F Sender → FrameHeader → List ℕ → TransportManager F Sender
  unfolding store
  handle_credit_frame m header payload =
      let key = handler_key m header.src_node in
      elim (decode_credit_payload payload) [
        | ok credit ↦ elim (lookup key m.sessions) [
          | none ↦ m
          | some s ↦ store key (add_credits credit.credits s) m
        ]
        | err e ↦ m
        | panicked ↦ m
      ]

  -- The fast retransmission of the entry with the number `seq`, if there is one
  unfoldable pub resend :
      (Sender → Bool)
      → Option ℕ
      → ReliableSession F
      → TransportManager F Sender
      → TransportManager F Sender
  unfolding send_frame_to_peer
  resend accepts none s m = m
  resend accepts (some seq) s m = elim (get_retransmit_entry s seq) [
    | none ↦ m
    | some e ↦ send_frame_to_peer accepts m s.key.remote_node e.frame
  ]

module _ {F Sender : Type 0} ⦃f : FloatOps F⦄ where
  unfoldable pub ack_on :
      (Sender → Bool)
      → ℕ
      → SessionKey
      → AckPayload
      → ReliableSession F
      → TransportManager F Sender
      → TransportManager F Sender
  unfolding store resend
  ack_on accepts now key ack s m =
      let r = process_ack_for_fast_retransmit s ack in
      store key (process_ack now r.0 ack).0 (resend accepts r.1 r.0 m)

  unfoldable pub handle_ack_frame :
      (Sender → Bool)
      → ℕ
      → TransportManager F Sender
      → FrameHeader
      → List ℕ
      → TransportManager F Sender
  unfolding ack_on
  handle_ack_frame accepts now m header payload =
      let key = handler_key m header.src_node in
      elim (decode_ack_payload payload (contains_has_sack header.flags)) [
        | ok ack ↦ elim (lookup key m.sessions) [
          | none ↦ m
          | some s ↦ ack_on accepts now key ack s m
        ]
        | err e ↦ m
        | panicked ↦ m
      ]

  -- The handler of a decoded frame
  unfoldable pub handle_decoded :
      (Sender → Bool)
      → ℕ
      → TransportManager F Sender
      → FrameType
      → FrameHeader
      → Option DataExtHeader
      → List ℕ
      → TransportManager F Sender
  unfolding handle_data_frame handle_ack_frame handle_credit_frame
  handle_decoded accepts now m data_frame header none payload = m
  handle_decoded accepts now m data_frame header (some ext) payload =
      handle_data_frame accepts m header ext payload
  handle_decoded accepts now m ack_frame header ext payload =
      handle_ack_frame accepts now m header payload
  handle_decoded accepts now m credit_frame header ext payload =
      handle_credit_frame m header payload

  unfoldable pub handle_incoming :
      (Sender → Bool) → ℕ → TransportManager F Sender → List ℕ → TransportManager F Sender
  unfolding handle_decoded
  handle_incoming accepts now m raw = elim (decode_frame raw) [
    | ok (header, ext, payload) ↦ handle_decoded accepts now m header.frame_type header ext payload
    | err e ↦ m
    | panicked ↦ m
  ]
