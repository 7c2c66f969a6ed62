-- ===== src/Transport/Manager/Timer.antt =====
-- crates/ub-transport/src/manager.rs: one tick of the timer task. Its `send` waits for room in the
-- channel, so `accepts` tells here whether the channel takes the frame in the end.
use unibus_toy.Base.{ℕ, Bool, none, some, List, [], ◌∷◌, ◌++◌}
use mathlib.Core.Option
use unibus_toy.Base.Assoc.{number_key}
use unibus_toy.Transport.Session.State.{SessionKey, ReliableSession, active, dead}
use unibus_toy.Transport.Session.Sending.{check_rto, get_retransmit_entry}
use unibus_toy.Transport.Manager.State.{TransportManager, session_key}
use unibus_toy.Transport.Manager.Send.{send_frame_to_peer}

module _ {F : Type 0} where
  -- The entries with these numbers, with the node that they go to
  unfoldable pub frames_of : ReliableSession F → List ℕ → List (ℕ × List ℕ)
  frames_of s [] = []
  frames_of s (seq ∷ seqs) =
      let rest = frames_of s seqs in
      elim (get_retransmit_entry s seq) [
        | none ↦ rest
        | some e ↦ (s.key.remote_node, e.frame) ∷ rest
      ]

  -- A session that the sweep leaves dead sends nothing.
  unfoldable pub frames_if_active : ReliableSession F → List ℕ → List (ℕ × List ℕ)
  unfolding frames_of
  frames_if_active s seqs = elim s.state [ dead ↦ [] | active ↦ frames_of s seqs ]

  -- The loop over the sessions: the sessions after it, and the frames to send again.
  unfoldable pub sweep_sessions :
      ℕ
      → List (SessionKey × ReliableSession F)
      → List (SessionKey × ReliableSession F) × List (ℕ × List ℕ)
  unfolding frames_if_active
  sweep_sessions now [] = ([], [])
  sweep_sessions now ((key, s) ∷ rest) =
      let more = sweep_sessions now rest in
      elim s.state [
        | dead ↦ ((key, s) ∷ more.0, more.1)
        | active ↦
            let r = check_rto now s in ((key, r.0) ∷ more.0, frames_if_active r.0 r.1 ++ more.1)
      ]

module _ {F Sender : Type 0} where
  unfoldable pub send_frames :
      (Sender → Bool) → List (ℕ × List ℕ) → TransportManager F Sender → TransportManager F Sender
  unfolding send_frame_to_peer
  send_frames accepts [] m = m
  send_frames accepts ((node, frame) ∷ frames) m =
      send_frames accepts frames (send_frame_to_peer accepts m node frame)

  unfoldable pub rto_tick :
      (Sender → Bool) → ℕ → TransportManager F Sender → TransportManager F Sender
  unfolding sweep_sessions send_frames
  rto_tick accepts now m =
      let r = sweep_sessions now m.sessions in send_frames accepts r.1 (record m { sessions = r.0 })
