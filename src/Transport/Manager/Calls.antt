-- ===== src/Transport/Manager/Calls.antt =====
-- Calls of the manager of crates/ub-transport/src/manager.rs: sending, granting credits, and the
-- loss of a peer.
use unibus_toy.Base.{
  ℕ, ◌+◌, ◌-◌, ◌%◌, ◌^◌, ◌≡◌, refl, ◌∙◌, inl, inr, Bool, false, not, ◌&&◌, ◌||◌, Option, none, some,
  List, [], ◌∷◌, arith, leb, ◌==◌, if◌then◌else◌, Option-cases,
}
use unibus_toy.Base.Assoc.{number_key, lookup, lookup-remove, same_refl}
use unibus_toy.Transport.Session.State.{SessionKey, ReliableSession}
use unibus_toy.Transport.Session.Sending.{assign_seq}
use unibus_toy.Transport.Session.Receiving.{should_send_ack}
use unibus_toy.Transport.Manager.State.{TransportManager, session_key}
use unibus_toy.Transport.Manager.Send.{find_session}
use unibus_toy.Transport.Manager.Operations.{
  on_session, grant_on, grant_credits, sessions_without, notify_peer_down,
}

module _ {Sender : Type 0} where
  -- Whether the channel to a peer takes a frame, and what it then holds more.
  abbrev pub takes : (Sender → Bool) → Option Sender → Bool
  takes accepts none = false
  takes accepts (some sender) = accepts sender

  abbrev pub posted : (Sender → Bool) → Option Sender → List ℕ → List (Sender × List ℕ)
  posted accepts none bytes = []
  posted accepts (some sender) bytes = if accepts sender then (sender, bytes) ∷ [] else []

module _ {F : Type 0} where
  -- The session once a credit is paid and the frame numbered.
  abbrev pub charged :
      ℕ → ℕ → List ℕ → Bool → ℕ → ReliableSession F → ReliableSession F × List ℕ × ℕ
  charged sent armed frame ff opaque s =
      assign_seq sent armed (record s { available_credits = s.available_credits - 1 }) frame ff
        opaque

  lookup-sessions_without :
      (node : ℕ) (q : SessionKey) (l : List (SessionKey × ReliableSession F))
      → lookup q (sessions_without node l) ≡ (if q.remote_node == node then none else lookup q l)
  unfolding lookup sessions_without
  lookup-sessions_without node q [] = ground arith
  lookup-sessions_without node q ((key, s) ∷ l) =
      ground (arith, lookup-sessions_without node q l, session_key.same_iff key q)

module _ {F Sender : Type 0} where
  -- Granting credits to a peer only counts them in the session with it: it never sends a CREDIT
  -- frame and never resets the count.
  pub grant_credits-on_session :
      (accepts : Sender → Bool) (m : TransportManager F Sender) (r count : ℕ)
      → grant_credits accepts m r count
        ≡ on_session
            (λ s. record s { credits_to_grant = (s.credits_to_grant + count) % 2 ^ 32 })
            m
            r
  unfolding grant_credits on_session grant_on should_send_ack
  grant_credits-on_session accepts m r count = elim (Option-cases (find_session m r)) [
    | inl missing ↦ rw (missing, grant_credits, on_session) refl
    | inr ((key, s), found) ↦
        let never : (leb 8 ((s.credits_to_grant + count) % 2 ^ 32)
              && not
                  (leb 8 s.frames_since_last_ack || leb 8 ((s.credits_to_grant + count) % 2 ^ 32)))
            ≡ false =
          ground arith in
        rw (found, grant_credits, on_session, never) refl
  ]

  -- After a peer is reported down no session with it is left under any epoch, none is found for
  -- it, and it has no channel, while every session with another peer stays.
  pub notify_peer_down_lem :
      (m : TransportManager F Sender) (node : ℕ) (q : SessionKey)
      → (lookup q (notify_peer_down m node).0.sessions
          ≡ (if q.remote_node == node then none else lookup q m.sessions))
        × (find_session (notify_peer_down m node).0 node ≡ none)
        × (lookup node (notify_peer_down m node).0.peer_senders ≡ none)
  unfolding notify_peer_down find_session
  notify_peer_down_lem m node q =
      let no_epoch : lookup node (notify_peer_down m node).0.peer_epochs ≡ none =
        lookup-remove node node m.peer_epochs ∙ rw (same_refl node) refl in
      (
        lookup-sessions_without node q m.sessions,
        rw (no_epoch, find_session) refl,
        lookup-remove node node m.peer_senders ∙ rw (same_refl node) refl,
      )
