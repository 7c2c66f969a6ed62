-- ===== src/Transport/Session/Receiving.antt =====
-- crates/ub-transport/src/session.rs: the receiving side of a session, with the records of what
-- was executed, and the acknowledgements it builds.
use unibus_toy.Base.{
  ℕ, zero, suc, ◌+◌, ◌-◌, ◌/◌, ◌%◌, ◌^◌, bit_or, Bool, true, false, ◌&&◌, ◌||◌, Option, none, some,
  List, [], ◌∷◌, ◌++◌, ltb, leb, ◌==◌, if◌then◌else◌, length, get_or, set, replicate,
}
use mathlib.Core.Option
use unibus_toy.Wire.Frame.{AckPayload}
use unibus_toy.Transport.Dedup
use unibus_toy.Transport.Dedup.{DedupWindow}
use unibus_toy.Transport.Session.State.{
  ReceiveAction, ReliableSession, deliver, duplicate, out_of_order, beyond_window,
}

-- `self.execution_records.iter_mut().find(|(s, _)| *s == seq)`, then the write
unfoldable pub mark_record : ℕ → List (ℕ × Bool) → Option (List (ℕ × Bool))
mark_record seq [] = none
mark_record seq ((s, b) ∷ rs) =
    let rest = mark_record seq rs in
    if s == seq then some ((s, true) ∷ rs) else Option.map (λ l. (s, b) ∷ l) rest

unfoldable pub any_executed : ℕ → List (ℕ × Bool) → Bool
any_executed seq [] = false
any_executed seq ((s, b) ∷ rs) = (s == seq && b) || any_executed seq rs

-- The trimming loop of `mark_executed`, one record a round.
unfoldable pub trim : List (ℕ × Bool) → List (ℕ × Bool)
trim [] = []
trim (r ∷ rs) = let rest = trim rs in if ltb 1024 (suc (length rs)) then rest else r ∷ rs

-- The bitmap of `build_ack_payload`: `n` rounds from bit `i` on.
unfoldable pub sack_loop : DedupWindow → ℕ → ℕ → ℕ → List ℕ → List ℕ
sack_loop w base zero i bitmap = bitmap
sack_loop w base (suc n) i bitmap = sack_loop w base n (i + 1) (
    if Dedup.is_seen w ((base + i) % 2 ^ 64)
    then set bitmap (i / 8) (bit_or (get_or bitmap (i / 8) 0) (2 ^ (i % 8)))
    else bitmap)

module _ {F : Type 0} where
  unfoldable pub mark_seen : ℕ → ReliableSession F → ReliableSession F
  mark_seen seq s = record s { dedup = Dedup.mark_and_advance s.dedup seq }

  unfoldable pub act_on :
      Dedup.DedupResult → ℕ → ReliableSession F → ReliableSession F × ReceiveAction
  act_on Dedup.in_order seq s = (mark_seen seq s, deliver)
  act_on Dedup.already_seen seq s = (s, duplicate)
  act_on Dedup.out_of_order seq s = (mark_seen seq s, out_of_order)
  act_on Dedup.beyond_window seq s = (s, beyond_window)

  unfoldable pub receive_frame : ReliableSession F → ℕ → ReliableSession F × ReceiveAction
  unfolding act_on mark_seen
  receive_frame s seq = act_on (Dedup.check s.dedup seq) seq (record s {
    frames_since_last_ack = (s.frames_since_last_ack + 1) % 2 ^ 32;
    credits_to_grant = (s.credits_to_grant + 1) % 2 ^ 32;
  })

  unfoldable pub mark_executed : ℕ → ReliableSession F → ReliableSession F
  unfolding mark_record trim
  mark_executed seq s = elim (mark_record seq s.execution_records) [
    | some records ↦ record s { execution_records = records }
    | none ↦ record s { execution_records = trim (s.execution_records ++ ((seq, true) ∷ [])) }
  ]

  unfoldable pub is_executed : ReliableSession F → ℕ → Bool
  unfolding any_executed
  is_executed s seq = any_executed seq s.execution_records

  unfoldable pub sack_bitmap : ReliableSession F → ℕ → List ℕ
  unfolding sack_loop
  sack_bitmap s ack_seq = sack_loop s.dedup ((ack_seq + 1) % 2 ^ 64) 256 0 (replicate 32 0)

  unfoldable pub build_ack_payload : ReliableSession F → Bool → ReliableSession F × AckPayload
  build_ack_payload s has_gap =
      let ack_seq = s.dedup.next_expected - 1 in
      let bitmap = sack_bitmap s ack_seq in
      (
        record s { credits_to_grant = 0; frames_since_last_ack = 0 },
        record {
          ack_seq = ack_seq;
          credit_grant = s.credits_to_grant;
          reserved = 0;
          sack_bitmap = if has_gap then some bitmap else none;
        },
      )

  unfoldable pub should_send_ack : ReliableSession F → Bool
  should_send_ack s = leb 8 s.frames_since_last_ack || leb 8 s.credits_to_grant
