-- ===== src/Transport/Manager/Effects.antt =====
-- What `handle_data_frame` of crates/ub-transport/src/manager.rs changes: the session with the
-- sender, and what goes up.
use unibus_toy.Base.{
  ℕ, ◌≡◌, refl, sym, ◌∙◌, inl, inr, Bool, false, ◌&&◌, ◌||◌, Option, some, List, [], ◌∷◌, ◌++◌,
  if◌then◌else◌, Bool-cases, Option-cases,
}
use mathlib.Core.Option
use mathlib.Core.List.{append-nil}
use unibus_toy.Base.Assoc.{number_key, lookup, insert as map_insert, lookup-insert, same_refl, ◌≟◌}
use unibus_toy.Transport.Dedup.{DedupWindow, check}
use unibus_toy.Transport.Session.State.{
  SessionState, SessionKey, ReliableSession, ReceiveAction, active, deliver, duplicate,
  out_of_order, beyond_window,
}
use unibus_toy.Transport.Session.Receiving.{receive_frame, build_ack_payload, should_send_ack}
use unibus_toy.Transport.Session.Deliveries.{
  is_deliver, window_after, action_of, receive_frame_lem, receive_frame-state,
}
use unibus_toy.Transport.Manager.State.{TransportManager, InboundFrame, session_key}
use unibus_toy.Transport.Manager.Frames.{build_ack_frame}
use unibus_toy.Transport.Manager.Send.{store, send_frame_to_peer}
use unibus_toy.Transport.Manager.Handlers.{
  wants_answer, is_duplicate, is_out_of_order, deliver_up, acknowledge, after_receive, receive_on,
}

-- What goes up when the session takes an arrival by the action `a`.
unfoldable pub delivered_by : ReceiveAction → InboundFrame → List InboundFrame
delivered_by a frame =
    if is_deliver a || (is_duplicate a && wants_answer frame.ext.verb) then frame ∷ [] else []

module _ {F : Type 0} where
  -- The state and the window of a session.
  abbrev pub view : ReliableSession F → SessionState × DedupWindow
  view s = (s.state, s.dedup)

module _ {F Sender : Type 0} where
  abbrev pub watch : TransportManager F Sender → SessionKey → Option (SessionState × DedupWindow)
  watch m key = Option.map view (lookup key m.sessions)

  -- From `m` to `n` only the session under `key` changes, to one that shows `v`, and `up` is
  -- delivered.
  pub record Touched (key : SessionKey) (v : SessionState × DedupWindow) (up : List InboundFrame)
      (m n : TransportManager F Sender) : Type 0 where
    pub local : n.local_node_id ≡ m.local_node_id
    pub epochs : n.peer_epochs ≡ m.peer_epochs
    pub here : watch n key ≡ some v
    pub others : (k : SessionKey) → (key ≟ k) ≡ false → watch n k ≡ watch m k
    pub inbound : n.inbound ≡ m.inbound ++ up

  pub send_frame_to_peer_lem :
      (accepts : Sender → Bool) (m : TransportManager F Sender) (r : ℕ) (bytes : List ℕ)
      → ((send_frame_to_peer accepts m r bytes).local_node_id ≡ m.local_node_id)
        × ((send_frame_to_peer accepts m r bytes).peer_epochs ≡ m.peer_epochs)
        × ((send_frame_to_peer accepts m r bytes).sessions ≡ m.sessions)
        × ((send_frame_to_peer accepts m r bytes).inbound ≡ m.inbound)
  unfolding send_frame_to_peer
  send_frame_to_peer_lem accepts m r bytes = elim (Option-cases (lookup r m.peer_senders)) [
    | inl missing ↦ rw (missing, send_frame_to_peer) (refl, refl, refl, refl)
    | inr (sender, found) ↦ elim (Bool-cases (accepts sender)) [
      | inl taken ↦ rw (found, send_frame_to_peer, taken) (refl, refl, refl, refl)
      | inr full ↦ rw (found, send_frame_to_peer, full) (refl, refl, refl, refl)
    ]
  ]

  store-Touched :
      (key : SessionKey) (s : ReliableSession F) (up : List InboundFrame)
      (m n : TransportManager F Sender)
      → n.local_node_id ≡ m.local_node_id
      → n.peer_epochs ≡ m.peer_epochs
      → n.sessions ≡ map_insert key s m.sessions
      → n.inbound ≡ m.inbound ++ up
      → Touched key (view s) up m n
  store-Touched key s up m n l e ss i = record {
    local = l;
    epochs = e;
    here = rw (ss, lookup-insert key key s m.sessions, same_refl key) refl;
    others = λ k differ. rw (ss, lookup-insert key k s m.sessions, differ) refl;
    inbound = i;
  }

  Touched-trans :
      (key : SessionKey) (v w : SessionState × DedupWindow) (up : List InboundFrame)
      (m n o : TransportManager F Sender)
      → Touched key v up m n
      → Touched key w [] n o
      → Touched key w up m o
  Touched-trans key v w up m n o a b = record {
    local = b.local ∙ a.local;
    epochs = b.epochs ∙ a.epochs;
    here = b.here;
    others = λ k differ. b.others k differ ∙ a.others k differ;
    inbound = b.inbound ∙ append-nil n.inbound ∙ a.inbound;
  }

  -- An acknowledgement delivers nothing and leaves the window.
  acknowledge-Touched :
      (accepts : Sender → Bool) (r : ℕ) (key : SessionKey) (a : ReceiveAction)
      (s : ReliableSession F) (m : TransportManager F Sender)
      → watch m key ≡ some (view s)
      → Touched key (view s) [] m (acknowledge accepts r key a s m)
  unfolding acknowledge store build_ack_payload
  acknowledge-Touched accepts r key a s m there =
      elim (Bool-cases (is_duplicate a || (is_out_of_order a || should_send_ack s))) [
        | inl due ↦
            let t = (build_ack_payload s (is_out_of_order a)).0 in
            let ack = (build_ack_payload s (is_out_of_order a)).1 in
            let bytes = build_ack_frame m.local_node_id r ack in
            let (l, e, ss, i) =
              send_frame_to_peer_lem accepts (store key t m) s.key.remote_node bytes in
            rw due (store-Touched key t [] m _ l e ss (i ∙ sym (append-nil m.inbound)))
        | inr not_due ↦ rw not_due (record {
          local = refl;
          epochs = refl;
          here = there;
          others = λ k differ. refl;
          inbound = sym (append-nil m.inbound);
        })
      ]

  after_receive-Touched :
      (accepts : Sender → Bool) (frame : InboundFrame) (key : SessionKey) (a : ReceiveAction)
      (s : ReliableSession F) (m : TransportManager F Sender)
      → Touched key
          (view s)
          (delivered_by a frame)
          m
          (after_receive accepts frame key a s (store key s m))
  unfolding after_receive store deliver_up delivered_by
  after_receive-Touched accepts frame key deliver s m =
      let first : Touched key (view s) (frame ∷ []) m (deliver_up frame (store key s m)) =
        store-Touched key s (frame ∷ []) m _ refl refl refl refl in
      Touched-trans key _ _ _ m _ _ first
        (acknowledge-Touched accepts frame.header.src_node key deliver s _ first.here)
  after_receive-Touched accepts frame key duplicate s m =
      elim (Bool-cases (wants_answer frame.ext.verb)) [
        | inl again ↦
            let first : Touched key (view s) (frame ∷ []) m (deliver_up frame (store key s m)) =
              store-Touched key s (frame ∷ []) m _ refl refl refl refl in
            rw again (
              Touched-trans key _ _ _ m _ _ first
                (acknowledge-Touched accepts frame.header.src_node key duplicate s _ first.here))
        | inr once ↦
            let first : Touched key (view s) [] m (store key s m) =
              store-Touched key s [] m _ refl refl refl (sym (append-nil m.inbound)) in
            rw once (
              Touched-trans key _ _ _ m _ _ first
                (acknowledge-Touched accepts frame.header.src_node key duplicate s _ first.here))
      ]
  after_receive-Touched accepts frame key out_of_order s m =
      let first : Touched key (view s) [] m (store key s m) =
        store-Touched key s [] m _ refl refl refl (sym (append-nil m.inbound)) in
      Touched-trans key _ _ _ m _ _ first
        (acknowledge-Touched accepts frame.header.src_node key out_of_order s _ first.here)
  after_receive-Touched accepts frame key beyond_window s m =
      store-Touched key s [] m _ refl refl refl (sym (append-nil m.inbound))

  -- An active session takes an arrival: its window and what goes up are as its window answers.
  pub receive_on-Touched :
      (accepts : Sender → Bool) (frame : InboundFrame) (key : SessionKey) (s : ReliableSession F)
      (m : TransportManager F Sender)
      → s.state ≡ active
      → Touched key
          (active, window_after s.dedup frame.seq (check s.dedup frame.seq))
          (delivered_by (action_of (check s.dedup frame.seq)) frame)
          m
          (receive_on accepts frame key s m)
  unfolding receive_on
  receive_on-Touched accepts frame key s m live =
      let r = receive_frame s frame.seq in
      let (window, action) = receive_frame_lem s frame.seq in
      let state : r.0.state ≡ active = receive_frame-state s frame.seq ∙ live in
      rw (live, receive_on, sym window, sym action, sym state)
        (after_receive-Touched accepts frame key r.1 r.0 m)
