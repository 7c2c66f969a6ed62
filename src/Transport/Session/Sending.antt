-- ===== src/Transport/Session/Sending.antt =====
-- crates/ub-transport/src/session.rs: the sending side of a session, with the queue of frames that
-- wait to be acknowledged, credits, the congestion window and the retransmission timer.
use unibus_toy.Base.{
  ℕ, ◌+◌, ◌-◌, ◌*◌, ◌/◌, ◌%◌, ◌^◌, bit_or, min, Bool, true, false, not, ◌&&◌, Option, none, some,
  List, [], ◌∷◌, ◌++◌, ltb, leb, ◌==◌, if◌then◌else◌, length, get_or, take, drop,
}
use mathlib.Core.Option
use unibus_toy.Core.Error.{Result, ok, err, no_resources}
use unibus_toy.Core.Bytes.{be_bytes, from_be}
use unibus_toy.Wire.Frame.{AckPayload, flag_ack_req}
use unibus_toy.Transport.Session.State.{
  FloatOps, RetransmitEntry, ReliableSession, active, dead, u32_max, from_millis, clamp_rto, kill,
}

-- `buf[at .. at + bytes.len()].copy_from_slice(bytes)`, for a range inside the buffer.
unfoldable pub patch : ℕ → List ℕ → List ℕ → List ℕ
patch at bytes buf = take at buf ++ (bytes ++ drop (at + length bytes) buf)

-- The two writes of `assign_seq` into the frame.
unfoldable pub stamp_seq : ℕ → List ℕ → List ℕ
unfolding patch
stamp_seq seq frame = if leb 24 (length frame) then patch 16 (be_bytes 8 seq) frame else frame

unfoldable pub stamp_flags : List ℕ → List ℕ
unfolding patch
stamp_flags frame =
    if leb 8 (length frame)
    then patch 6
        (be_bytes 2 (bit_or (from_be 0 (get_or frame 6 0 ∷ get_or frame 7 0 ∷ [])) flag_ack_req))
        frame
    else frame

unfoldable pub find_entry : ℕ → List RetransmitEntry → Option RetransmitEntry
find_entry seq [] = none
find_entry seq (e ∷ q) = if e.seq == seq then some e else find_entry seq q

-- `position(|e| e.opaque == opaque && !e.is_fire_and_forget)` and `remove`; `none` if not found.
unfoldable pub remove_request : ℕ → List RetransmitEntry → Option (List RetransmitEntry)
remove_request opaque [] = none
remove_request opaque (e ∷ q) =
    let rest = remove_request opaque q in
    if (e.opaque == opaque) && not e.is_fire_and_forget
    then some q
    else Option.map (λ l. e ∷ l) rest

-- The loop of `check_rto`: the entries after it, the numbers to send again, and whether an entry
-- ran out of retries, which ends the loop.
unfoldable pub rto_loop : ℕ → ℕ → ℕ → List RetransmitEntry → List RetransmitEntry × List ℕ × Bool
rto_loop now max_retries rto_base_ms [] = ([], [], false)
rto_loop now max_retries rto_base_ms (e ∷ q) =
    let more = rto_loop now max_retries rto_base_ms q in
    let retry = (e.retry_count + 1) % 2 ^ 32 in
    let backoff = rto_base_ms * 2 ^ min retry 10 % 2 ^ 64 in
    if leb e.rto_deadline now
    then (if ltb max_retries retry then (record e { retry_count = retry } ∷ q, [], true) else (
      record e { retry_count = retry; rto_deadline = now + from_millis backoff } ∷ more.0,
      e.seq ∷ more.1,
      more.2,
    ))
    else (e ∷ more.0, more.1, more.2)

abbrev pub nonempty : List ℕ → Bool
nonempty [] = false
nonempty (x ∷ xs) = true

module _ {F : Type 0} ⦃f : FloatOps F⦄ where
  unfoldable pub update_rtt : F → ReliableSession F → ReliableSession F
  update_rtt sample_ms s =
      let srtt = f.plus (f.times f.eighths_7 s.srtt) (f.times f.eighth sample_ms) in
      let spread = f.absolute (f.minus sample_ms srtt) in
      let rttvar = f.plus (f.times f.quarters_3 s.rttvar) (f.times f.quarter spread) in
      record s {
        srtt = srtt;
        rttvar = rttvar;
        rto = clamp_rto (f.round_u64 (f.plus srtt (f.times f.four rttvar)));
      }

  -- The round-trip sample of one acknowledged entry, taken at `now`.
  unfoldable pub sample_rtt : ℕ → Bool → RetransmitEntry → ReliableSession F → ReliableSession F
  unfolding update_rtt
  sample_rtt now is_new_ack e s =
      let sample_ms = f.of_u64 ((now - e.first_sent_at) / 1_000_000) in
      if is_new_ack && (e.retry_count == 0)
      then (if f.is_positive sample_ms then update_rtt sample_ms s else s)
      else s

module _ {F : Type 0} where
  -- The session after a frame is numbered, the frame as stamped, and its number. `sent` and
  -- `armed` are the two readings of the clock.
  unfoldable pub assign_seq :
      ℕ → ℕ → ReliableSession F → List ℕ → Bool → ℕ → ReliableSession F × List ℕ × ℕ
  unfolding stamp_seq stamp_flags
  assign_seq sent armed s frame is_fire_and_forget opaque =
      let seq = s.next_seq in
      let stamped = stamp_flags (stamp_seq seq frame) in
      let e : RetransmitEntry = record {
        seq = seq;
        frame = stamped;
        first_sent_at = sent;
        rto_deadline = armed + from_millis s.rto;
        retry_count = 0;
        is_fire_and_forget = is_fire_and_forget;
        opaque = opaque;
      } in
      (
        record s {
          next_seq = (seq + 1) % 2 ^ 64;
          retransmit_queue = s.retransmit_queue ++ (e ∷ []);
        },
        stamped,
        seq,
      )

  unfoldable pub add_credits : ℕ → ReliableSession F → ReliableSession F
  add_credits credits s = record s {
    available_credits = min (s.available_credits + credits) u32_max;
  }

  unfoldable pub consume_credit : ReliableSession F → Result (ReliableSession F)
  consume_credit s =
      if s.available_credits == 0
      then err no_resources
      else ok (record s { available_credits = s.available_credits - 1 })

  unfoldable pub on_new_ack : ReliableSession F → ReliableSession F
  on_new_ack s = record s {
    cwnd = if ltb s.cwnd s.ssthresh then min (s.cwnd * 2) u32_max else (s.cwnd + 1) % 2 ^ 32;
    dup_ack_count = 0;
  }

  unfoldable pub on_loss : ReliableSession F → ReliableSession F
  on_loss s = record s {
    ssthresh = if ltb (s.cwnd / 2) 2 then 2 else s.cwnd / 2;
    cwnd = 1;
    dup_ack_count = 0;
  }

  unfoldable pub send_available : ReliableSession F → ℕ
  send_available s = s.cwnd - length s.retransmit_queue % 2 ^ 32

  unfoldable pub complete_request : ℕ → ReliableSession F → ReliableSession F × Bool
  unfolding remove_request
  complete_request opaque s = elim (remove_request opaque s.retransmit_queue) [
    | none ↦ (s, false)
    | some q ↦ (record s { retransmit_queue = q }, true)
  ]

  -- The number to send again at once, if any. The two branches for a repeated ACK, with a bitmap
  -- and without, are the same.
  unfoldable pub process_ack_for_fast_retransmit :
      ReliableSession F → AckPayload → ReliableSession F × Option ℕ
  process_ack_for_fast_retransmit s ack =
      if ltb s.last_ack_seq ack.ack_seq
      then (record s { last_ack_seq = ack.ack_seq; dup_ack_count = 0 }, none)
      else if leb 3 ((s.dup_ack_count + 1) % 2 ^ 32)
      then (record s { dup_ack_count = 0 }, some ((ack.ack_seq + 1) % 2 ^ 64))
      else (record s { dup_ack_count = (s.dup_ack_count + 1) % 2 ^ 32 }, none)

  unfoldable pub check_rto : ℕ → ReliableSession F → ReliableSession F × List ℕ
  unfolding rto_loop kill on_loss
  check_rto now s = elim s.state [
    | dead ↦ (s, [])
    | active ↦
        let r = rto_loop now s.max_retries s.rto_base_ms s.retransmit_queue in
        let swept = record s { retransmit_queue = r.0 } in
        if r.2
        then ((kill swept).0, [])
        else if nonempty r.1
        then (on_loss swept, r.1)
        else (swept, r.1)
  ]

  unfoldable pub get_retransmit_entry : ReliableSession F → ℕ → Option RetransmitEntry
  unfolding find_entry
  get_retransmit_entry s seq = find_entry seq s.retransmit_queue

module _ {F : Type 0} ⦃f : FloatOps F⦄ where
  -- The loop of `process_ack`; `now` stands for every reading of the clock in it.
  unfoldable pub ack_loop :
      ℕ
      → ℕ
      → Bool
      → List RetransmitEntry
      → ReliableSession F
      → List RetransmitEntry
      → List RetransmitEntry
      → ReliableSession F × List RetransmitEntry × List RetransmitEntry
  unfolding sample_rtt
  ack_loop now ack_seq is_new_ack [] s removed keep = (s, removed, keep)
  ack_loop now ack_seq is_new_ack (e ∷ q) s removed keep =
      let acked = leb e.seq ack_seq && e.is_fire_and_forget in
      ack_loop now ack_seq is_new_ack q (if acked then sample_rtt now is_new_ack e s else s)
        (if acked then removed ++ (e ∷ []) else removed) (if acked then keep else keep ++ (e ∷ []))

  -- What follows the loop: the credits of the ACK, and the congestion window on a new one.
  unfoldable pub finish_ack : Bool → ℕ → ReliableSession F → ReliableSession F
  unfolding add_credits on_new_ack
  finish_ack is_new_ack credits s =
      if is_new_ack then on_new_ack (add_credits credits s) else add_credits credits s

  unfoldable pub process_ack :
      ℕ → ReliableSession F → AckPayload → ReliableSession F × List RetransmitEntry
  unfolding ack_loop finish_ack
  process_ack now s ack =
      let is_new_ack = ltb s.last_ack_seq ack.ack_seq in
      let r = ack_loop now ack.ack_seq is_new_ack s.retransmit_queue s [] [] in
      (finish_ack is_new_ack ack.credit_grant (record (r.0) { retransmit_queue = r.2 }), r.1)
