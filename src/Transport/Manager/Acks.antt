-- ===== src/Transport/Manager/Acks.antt =====
-- ACK frames between two managers of crates/ub-transport/src/manager.rs.
use unibus_toy.Base.{
  ℕ, ◌^◌, ◌<◌, ◌≡◌, refl, sym, ap, inl, inr, Bool, Option, none, some, List, Bool-cases,
  Option-cases,
}
use mathlib.Core.Option
use unibus_toy.Base.Assoc.{number_key, lookup, lookup-insert, ◌≟◌}
use unibus_toy.Core.Error.{Result-cases}
use unibus_toy.Wire.Frame.{AckPayload, FrameHeader, contains_has_sack}
use unibus_toy.Wire.Codec.{decode_ack_payload}
use unibus_toy.Wire.Codec.Acks.{SackMatches}
use unibus_toy.Transport.Session.State.{FloatOps, SessionKey, ReliableSession}
use unibus_toy.Transport.Session.Sending.{
  get_retransmit_entry, process_ack, process_ack_for_fast_retransmit,
}
use unibus_toy.Transport.Session.Acks.{noted_ack_changes_no_estimate}
use unibus_toy.Transport.Manager.State.{TransportManager, session_key}
use unibus_toy.Transport.Manager.Frames.{sack_flags}
use unibus_toy.Transport.Manager.Send.{store}
use unibus_toy.Transport.Manager.Handlers.{handler_key, handle_ack_frame, ack_on, resend}
use unibus_toy.Transport.Manager.Effects.{send_frame_to_peer_lem}

-- The fields of an ACK fit their widths, and a bitmap has 32 bytes.
pub record IsAck (a : AckPayload) : Type 0 where
  pub ack_seq : a.ack_seq < 2 ^ 64
  pub credit_grant : a.credit_grant < 2 ^ 32
  pub reserved : a.reserved < 2 ^ 32
  pub bitmap : SackMatches (contains_has_sack (sack_flags a.sack_bitmap)) a.sack_bitmap

module _ {F : Type 0} where
  -- The estimates of a session: its congestion window, its round-trip estimate and its timeout.
  abbrev pub estimates : ReliableSession F → ℕ × F × F × ℕ
  estimates s = (s.cwnd, s.srtt, s.rttvar, s.rto)

module _ {F Sender : Type 0} ⦃f : FloatOps F⦄ where
  -- What an ACK does to the manager of the node that gets it, from the node `l`.
  unfoldable pub acknowledged :
      (Sender → Bool) → ℕ → TransportManager F Sender → ℕ → AckPayload → TransportManager F Sender
  acknowledged accepts now m l a = elim (lookup (handler_key m l) m.sessions) [
    | none ↦ m
    | some s ↦ ack_on accepts now (handler_key m l) a s m
  ]

  resend-sessions :
      (accepts : Sender → Bool) (seq : Option ℕ) (s : ReliableSession F)
      (m : TransportManager F Sender)
      → (resend accepts seq s m).sessions ≡ m.sessions
  unfolding resend
  resend-sessions accepts none s m = refl
  resend-sessions accepts (some seq) s m = elim (Option-cases (get_retransmit_entry s seq)) [
    | inl missing ↦ rw (missing, resend) refl
    | inr (e, found) ↦
        rw (found, resend) (send_frame_to_peer_lem accepts m s.key.remote_node e.frame).2
  ]

  -- The handler of an ACK changes the estimates of no session at all.
  ack_on-estimates :
      (accepts : Sender → Bool) (now : ℕ) (key q : SessionKey) (a : AckPayload)
      (s : ReliableSession F) (m : TransportManager F Sender)
      → lookup key m.sessions ≡ some s
      → Option.map estimates (lookup q (ack_on accepts now key a s m).sessions)
        ≡ Option.map estimates (lookup q m.sessions)
  unfolding ack_on store
  ack_on-estimates accepts now key q a s m found =
      let r = process_ack_for_fast_retransmit s a in
      let t = (process_ack now r.0 a).0 in
      let (cwnd, srtt, rttvar, rto) = noted_ack_changes_no_estimate now s a in
      let kept : estimates t ≡ estimates s = rw (cwnd, srtt, rttvar, rto) refl in
      rw (resend-sessions accepts r.1 r.0 m, lookup-insert key q t m.sessions)
        (elim (Bool-cases (key ≟ q)) [
          | inl this ↦
              let e : key ≡ q = (session_key.same_iff key q).0 this in
              rw (this, sym e, found) (ap some kept)
          | inr other ↦ rw other refl
        ])

  -- Whatever ACK frame is handled, no session at all has its congestion window, its round-trip
  -- estimate or its timeout changed.
  pub handle_ack_frame-estimates :
      (accepts : Sender → Bool) (now : ℕ) (m : TransportManager F Sender) (header : FrameHeader)
      (payload : List ℕ) (q : SessionKey)
      → Option.map estimates (lookup q (handle_ack_frame accepts now m header payload).sessions)
        ≡ Option.map estimates (lookup q m.sessions)
  unfolding handle_ack_frame
  handle_ack_frame-estimates accepts now m header payload q =
      elim (Result-cases (decode_ack_payload payload (contains_has_sack header.flags))) [
        | inl (a, decoded) ↦
            elim (Option-cases (lookup (handler_key m header.src_node) m.sessions)) [
              | inl missing ↦ rw (decoded, handle_ack_frame, missing) refl
              | inr (s, found) ↦
                  rw (decoded, handle_ack_frame, found)
                    (ack_on-estimates accepts now (handler_key m header.src_node) q a s m found)
            ]
        | inr (inl (e, failed)) ↦ rw (failed, handle_ack_frame) refl
        | inr (inr failed) ↦ rw (failed, handle_ack_frame) refl
      ]
