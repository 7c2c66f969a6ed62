-- ===== src/Transport/Manager/Send.antt =====
-- crates/ub-transport/src/manager.rs: the way of a frame to a peer. `accepts` tells whether a
-- channel takes a frame at this moment, as `try_send` of tokio reports it.
use unibus_toy.Base.{ℕ, Bool, Option, none, some, List, [], ◌∷◌, ◌++◌, if◌then◌else◌}
use unibus_toy.Core.Error.{Result, ok, err, panicked, link_down}
use unibus_toy.Base.Assoc.{number_key, lookup, insert as map_insert}
use unibus_toy.Transport.Session.State.{SessionKey, ReliableSession, active, dead}
use unibus_toy.Transport.Session.Sending.{assign_seq, consume_credit}
use unibus_toy.Transport.Manager.State.{TransportManager, session_key, key_of}
use unibus_toy.Transport.Manager.Frames.{build_credit_frame}

module _ {F Sender : Type 0} where
  -- `sessions.get(&key)` for the key of the peer's current epoch, and the key
  unfoldable pub find_session :
      TransportManager F Sender → ℕ → Option (SessionKey × ReliableSession F)
  find_session m remote_node = elim (lookup remote_node m.peer_epochs) [
    | none ↦ none
    | some epoch ↦ elim (lookup (key_of m remote_node epoch) m.sessions) [
      | none ↦ none
      | some s ↦ some (key_of m remote_node epoch, s)
    ]
  ]

  -- A change of a session under its lock.
  unfoldable pub store :
      SessionKey → ReliableSession F → TransportManager F Sender → TransportManager F Sender
  store key s m = record m { sessions = map_insert key s m.sessions }

  unfoldable pub send_frame_to_peer :
      (Sender → Bool) → TransportManager F Sender → ℕ → List ℕ → TransportManager F Sender
  send_frame_to_peer accepts m remote_node bytes = elim (lookup remote_node m.peer_senders) [
    | none ↦ m
    | some sender ↦
        if accepts sender then record m { sent = m.sent ++ ((sender, bytes) ∷ []) } else m
  ]

  unfoldable pub send_credit_frame :
      (Sender → Bool) → TransportManager F Sender → ℕ → ℕ → TransportManager F Sender
  unfolding send_frame_to_peer
  send_credit_frame accepts m remote_node credits =
      send_frame_to_peer accepts m remote_node
        (build_credit_frame m.local_node_id remote_node credits)

  -- What `send` does once the frame has its number.
  unfoldable pub dispatch :
      (Sender → Bool)
      → ℕ
      → List ℕ
      → ℕ
      → TransportManager F Sender
      → TransportManager F Sender × List ℕ × Result ℕ
  dispatch accepts remote_node frame seq m = elim (lookup remote_node m.peer_senders) [
    | none ↦ (m, frame, err link_down)
    | some sender ↦
        if accepts sender
        then (record m { sent = m.sent ++ ((sender, frame) ∷ []) }, frame, ok seq)
        else (m, frame, err link_down)
  ]

  -- `send` on the session it found, and on that session with a credit taken
  unfoldable pub send_numbered :
      (Sender → Bool)
      → ℕ
      → ℕ
      → ℕ
      → List ℕ
      → Bool
      → ℕ
      → SessionKey
      → ReliableSession F
      → TransportManager F Sender
      → TransportManager F Sender × List ℕ × Result ℕ
  unfolding store dispatch
  send_numbered accepts sent armed remote_node frame ff opaque key s m =
      let r = assign_seq sent armed s frame ff opaque in
      dispatch accepts remote_node r.1 r.2 (store key r.0 m)

  unfoldable pub send_active :
      (Sender → Bool)
      → ℕ
      → ℕ
      → ℕ
      → List ℕ
      → Bool
      → ℕ
      → SessionKey
      → ReliableSession F
      → TransportManager F Sender
      → TransportManager F Sender × List ℕ × Result ℕ
  unfolding send_numbered
  send_active accepts sent armed remote_node frame ff opaque key s m = elim (consume_credit s) [
    | ok paid ↦ send_numbered accepts sent armed remote_node frame ff opaque key paid m
    | err e ↦ (m, frame, err e)
    | panicked ↦ (m, frame, panicked)
  ]

  unfoldable pub send_on :
      (Sender → Bool)
      → ℕ
      → ℕ
      → ℕ
      → List ℕ
      → Bool
      → ℕ
      → SessionKey
      → ReliableSession F
      → TransportManager F Sender
      → TransportManager F Sender × List ℕ × Result ℕ
  unfolding send_active
  send_on accepts sent armed remote_node frame ff opaque key s m = elim s.state [
    | dead ↦ (m, frame, err link_down)
    | active ↦ send_active accepts sent armed remote_node frame ff opaque key s m
  ]

  -- The manager after `send`, the caller's buffer, which is stamped in place, and the result.
  unfoldable pub send :
      (Sender → Bool)
      → ℕ
      → ℕ
      → TransportManager F Sender
      → ℕ
      → List ℕ
      → Bool
      → ℕ
      → TransportManager F Sender × List ℕ × Result ℕ
  unfolding find_session send_on
  send accepts sent armed m remote_node frame ff opaque = elim (find_session m remote_node) [
    | none ↦ (m, frame, err link_down)
    | some (key, s) ↦ send_on accepts sent armed remote_node frame ff opaque key s m
  ]
