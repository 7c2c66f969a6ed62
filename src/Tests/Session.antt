-- ===== src/Tests/Session.antt =====
-- crates/ub-transport/src/session.rs at concrete inputs, with floats counted in thousandths.
use unibus_toy.Base.{
  ℕ, ◌+◌, ◌≤◌, min, ◌≡◌, refl, ◌∙◌, true, false, not, ◌&&◌, none, [], ◌∷◌, arith, if◌then◌else◌,
}
use unibus_toy.Wire.Frame.{AckPayload}
use unibus_toy.Transport.Dedup
use unibus_toy.Transport.Dedup.{DedupWindow, is_seen}
use unibus_toy.Transport.Dedup.Invariant.{IsValid}
use unibus_toy.Transport.Dedup.Refinement.{with_window_size-IsValid, is_seen-with_window_size}
use unibus_toy.Transport.Session.State.{ReliableSession, active, dead, new, kill, u32_max}
use unibus_toy.Tests.Floats.{thousandths}
use unibus_toy.Transport.Session.Sending.{assign_seq, process_ack, check_rto, nonempty}
use unibus_toy.Transport.Session.Receiving.{receive_frame, build_ack_payload}
use unibus_toy.Transport.Session.Deliveries.{
  deliveries, IsFresh, count_from, all_delivered, received, deliveries-le_one,
  in_order_all_delivered,
}
use unibus_toy.Transport.Session.Acks.{settled, waiting, process_ack_lem}
use unibus_toy.Transport.Session.Sack.{bitmap_bit, build_ack_exact}
use unibus_toy.Transport.Session.Queue.{IsOrdered}
use unibus_toy.Transport.Session.Timeout.{exhausted, expired, swept, check_rto_lem, check_rto_dead}

abbrev start : ReliableSession ℕ
start = new 1 2 7 200 3 64

abbrev queued : ReliableSession ℕ
queued = (assign_seq 0 0 (assign_seq 0 0 start [] true 5).0 [] false 6).0

abbrev second_ack : AckPayload
second_ack = record { ack_seq = 2; credit_grant = 4; reserved = 0; sack_bitmap = none }

start-IsValid : IsValid start.dedup
unfolding new Dedup.new Dedup.with_window_size
start-IsValid = with_window_size-IsValid 1 1024 (omega arith)

start-IsFresh : IsFresh start.dedup
unfolding new Dedup.new Dedup.with_window_size
start-IsFresh s h = is_seen-with_window_size 1 1024 s (omega arith) ∙ ground arith

queued-IsOrdered : IsOrdered queued
unfolding new assign_seq
queued-IsOrdered = (omega arith, (omega arith, omega arith))

deliveries-le_one_example : deliveries 2 start (2 ∷ 1 ∷ 2 ∷ []) ≤ 1
unfolding new Dedup.new
deliveries-le_one_example =
    deliveries-le_one 2 (2 ∷ 1 ∷ 2 ∷ []) start start-IsValid (omega arith) (omega arith)

in_order_all_delivered_example : all_delivered start (count_from 1 3) ≡ true
unfolding new Dedup.new
in_order_all_delivered_example =
    in_order_all_delivered 3 1 start refl start-IsValid (omega arith) (omega arith) start-IsFresh

check_rto_lem_example :
    let gone = exhausted 300_000_000 queued.max_retries queued.retransmit_queue in
    let late = expired 300_000_000 queued.retransmit_queue in
    let r = check_rto 300_000_000 queued in
    (r.1 ≡ (if gone then [] else late))
    × (r.0.retransmit_queue
        ≡ (if gone then [] else swept 300_000_000 queued.rto_base_ms queued.retransmit_queue))
    × (r.0.state ≡ (if gone then dead else active))
    × (r.0.cwnd ≡ (if not gone && nonempty late then 1 else queued.cwnd))
    × (r.0.next_seq ≡ queued.next_seq)
unfolding new assign_seq
check_rto_lem_example = check_rto_lem 300_000_000 queued refl (omega arith, (omega arith, tt))

-- Both entries are late by then, and have a retry left.
both_late : (check_rto 300_000_000 queued).1 ≡ 1 ∷ 2 ∷ []
unfolding new assign_seq check_rto
both_late = refl

check_rto_dead_example : check_rto 9 (kill queued).0 ≡ ((kill queued).0, [])
unfolding kill
check_rto_dead_example = check_rto_dead 9 (kill queued).0 refl

process_ack_lem_example :
    ((process_ack 9 queued second_ack).1 ≡ settled 2 queued.retransmit_queue)
    × ((process_ack 9 queued second_ack).0.retransmit_queue ≡ waiting 2 queued.retransmit_queue)
    × ((process_ack 9 queued second_ack).0.available_credits
        ≡ min (queued.available_credits + 4) u32_max)
    × ((process_ack 9 queued second_ack).0.next_seq ≡ queued.next_seq)
    × ((process_ack 9 queued second_ack).0.dedup ≡ queued.dedup)
process_ack_lem_example = process_ack_lem 9 queued second_ack

-- Number 2 has arrived, and 1 is missing.
abbrev gapped : ReliableSession ℕ
gapped = (receive_frame start 2).0

gapped-IsValid : IsValid gapped.dedup
unfolding new Dedup.new
gapped-IsValid = (received start 2 0 start-IsValid (omega arith)).0.valid

build_ack_exact_example :
    let acked = build_ack_payload gapped true in
    (is_seen gapped.dedup 0 ≡ true)
    × (is_seen gapped.dedup (acked.1.ack_seq + 1) ≡ false)
    × (bitmap_bit acked.1.sack_bitmap 1 ≡ is_seen gapped.dedup (acked.1.ack_seq + 1 + 1))
    × (acked.1.credit_grant ≡ gapped.credits_to_grant)
    × (acked.0.credits_to_grant ≡ 0)
    × (acked.0.dedup ≡ gapped.dedup)
unfolding new Dedup.new receive_frame Dedup.check Dedup.mark_and_advance Dedup.advance
    Dedup.is_bit_set Dedup.set_bit
build_ack_exact_example =
    build_ack_exact gapped 0 1 gapped-IsValid (omega arith) (omega arith) (omega arith)
      (omega arith)
