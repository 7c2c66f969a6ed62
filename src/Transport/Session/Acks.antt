-- ===== src/Transport/Session/Acks.antt =====
-- What an acknowledgement does to the sending side of a session
-- (crates/ub-transport/src/session.rs).
use unibus_toy.Base.{
  ℕ, suc, ◌+◌, ◌-◌, ◌/◌, ◌%◌, ◌^◌, ◌≤◌, min, ◌≡◌, refl, sym, ap, ◌∙◌, inl, inr, Bool, true, false,
  ◌&&◌, List, [], ◌∷◌, ◌++◌, arith, ltb, leb, ◌==◌, if◌then◌else◌, Bool-cases,
}
use mathlib.Core.List.{append_assoc, append-nil}
use unibus_toy.Wire.Frame.{AckPayload}
use unibus_toy.Transport.Session.State.{ReliableSession, RetransmitEntry, FloatOps, u32_max, new}
use unibus_toy.Transport.Session.Sending.{
  process_ack_for_fast_retransmit, ack_loop, process_ack, finish_ack, sample_rtt, update_rtt,
  add_credits, on_new_ack,
}
use unibus_toy.Transport.Session.Queue.{Rises, Rises-skip, IsOrdered}

-- The entries that an ACK up to `ack_seq` settles, and those that it leaves waiting: requests wait
-- for their response, whatever is acknowledged.
unfoldable pub settled : ℕ → List RetransmitEntry → List RetransmitEntry
settled ack_seq [] = []
settled ack_seq (e ∷ q) =
    let rest = settled ack_seq q in
    if leb e.seq ack_seq && e.is_fire_and_forget then e ∷ rest else rest

unfoldable pub waiting : ℕ → List RetransmitEntry → List RetransmitEntry
waiting ack_seq [] = []
waiting ack_seq (e ∷ q) =
    let rest = waiting ack_seq q in
    if leb e.seq ack_seq && e.is_fire_and_forget then rest else e ∷ rest

module _ {F : Type 0} where
  -- The timeout lies between 200 ms and a minute.
  abbrev pub RtoInRange : ReliableSession F → Type 0
  RtoInRange s = (200 ≤ s.rto) × (s.rto ≤ 60_000)

  -- The sessions differ in their round-trip estimate at most, and the timeout stays in range.
  pub record OnlyRtt (s t : ReliableSession F) : Type 0 where
    pub next_seq : t.next_seq ≡ s.next_seq
    pub available_credits : t.available_credits ≡ s.available_credits
    pub cwnd : t.cwnd ≡ s.cwnd
    pub ssthresh : t.ssthresh ≡ s.ssthresh
    pub last_ack_seq : t.last_ack_seq ≡ s.last_ack_seq
    pub dup_ack_count : t.dup_ack_count ≡ s.dup_ack_count
    pub dedup : t.dedup ≡ s.dedup
    pub in_range : RtoInRange s → RtoInRange t

  OnlyRtt-refl : (s : ReliableSession F) → OnlyRtt s s
  OnlyRtt-refl s = record {
    next_seq = refl;
    available_credits = refl;
    cwnd = refl;
    ssthresh = refl;
    last_ack_seq = refl;
    dup_ack_count = refl;
    dedup = refl;
    in_range = λ h. h;
  }

  OnlyRtt-trans : (s t u : ReliableSession F) → OnlyRtt s t → OnlyRtt t u → OnlyRtt s u
  OnlyRtt-trans s t u a b = record {
    next_seq = b.next_seq ∙ a.next_seq;
    available_credits = b.available_credits ∙ a.available_credits;
    cwnd = b.cwnd ∙ a.cwnd;
    ssthresh = b.ssthresh ∙ a.ssthresh;
    last_ack_seq = b.last_ack_seq ∙ a.last_ack_seq;
    dup_ack_count = b.dup_ack_count ∙ a.dup_ack_count;
    dedup = b.dedup ∙ a.dedup;
    in_range = λ h. b.in_range (a.in_range h);
  }

module _ {F : Type 0} ⦃f : FloatOps F⦄ where
  update_rtt-OnlyRtt : (x : F) (s : ReliableSession F) → OnlyRtt s (update_rtt x s)
  unfolding update_rtt
  update_rtt-OnlyRtt x s = record {
    next_seq = refl;
    available_credits = refl;
    cwnd = refl;
    ssthresh = refl;
    last_ack_seq = refl;
    dup_ack_count = refl;
    dedup = refl;
    in_range = λ h. (omega arith, omega arith);
  }

  sample_rtt-OnlyRtt :
      (now : ℕ) (fresh : Bool) (e : RetransmitEntry) (s : ReliableSession F)
      → OnlyRtt s (sample_rtt now fresh e s)
  unfolding sample_rtt
  sample_rtt-OnlyRtt now fresh e s =
      let ms = f.of_u64 ((now - e.first_sent_at) / 1_000_000) in
      elim (Bool-cases (fresh && (e.retry_count == 0))) [
        | inl taken ↦ elim (Bool-cases (f.is_positive ms)) [
          | inl some_time ↦ rw (taken, some_time) (update_rtt-OnlyRtt ms s)
          | inr no_time ↦ rw (taken, no_time) (OnlyRtt-refl s)
        ]
        | inr skipped ↦ rw skipped (OnlyRtt-refl s)
      ]

  ack_loop_lists :
      (now n : ℕ) (fresh : Bool) (q : List RetransmitEntry) (s : ReliableSession F)
      (removed keep : List RetransmitEntry)
      → ((ack_loop now n fresh q s removed keep).1 ≡ removed ++ settled n q)
        × ((ack_loop now n fresh q s removed keep).2 ≡ keep ++ waiting n q)
  unfolding ack_loop settled waiting
  ack_loop_lists now n fresh [] s removed keep = (sym (append-nil removed), sym (append-nil keep))
  ack_loop_lists now n fresh (e ∷ q) s removed keep =
      elim (Bool-cases (leb e.seq n && e.is_fire_and_forget)) [
        | inl acked ↦
            let s' = sample_rtt now fresh e s in
            let (r, k) = ack_loop_lists now n fresh q s' (removed ++ (e ∷ [])) keep in
            rw (acked, ack_loop) (r ∙ append_assoc removed (e ∷ []) (settled n q), k)
        | inr open_ ↦
            let (r, k) = ack_loop_lists now n fresh q s removed (keep ++ (e ∷ [])) in
            rw (open_, ack_loop) (r, k ∙ append_assoc keep (e ∷ []) (waiting n q))
      ]

  ack_loop-OnlyRtt :
      (now n : ℕ) (fresh : Bool) (q : List RetransmitEntry) (s : ReliableSession F)
      (removed keep : List RetransmitEntry)
      → OnlyRtt s (ack_loop now n fresh q s removed keep).0
  unfolding ack_loop
  ack_loop-OnlyRtt now n fresh [] s removed keep = OnlyRtt-refl s
  ack_loop-OnlyRtt now n fresh (e ∷ q) s removed keep =
      elim (Bool-cases (leb e.seq n && e.is_fire_and_forget)) [
        | inl acked ↦
            let s' = sample_rtt now fresh e s in
            rw (acked, ack_loop)
              (OnlyRtt-trans s s' _ (sample_rtt-OnlyRtt now fresh e s)
                (ack_loop-OnlyRtt now n fresh q s' (removed ++ (e ∷ [])) keep))
        | inr open_ ↦
            rw (open_, ack_loop) (ack_loop-OnlyRtt now n fresh q s removed (keep ++ (e ∷ [])))
      ]

  -- What follows the loop of `process_ack`.
  finish_ack_lem :
      (fresh : Bool) (credits : ℕ) (t : ReliableSession F)
      → ((finish_ack fresh credits t).retransmit_queue ≡ t.retransmit_queue)
        × ((finish_ack fresh credits t).available_credits
            ≡ min (t.available_credits + credits) u32_max)
        × ((finish_ack fresh credits t).next_seq ≡ t.next_seq)
        × ((finish_ack fresh credits t).dedup ≡ t.dedup)
        × ((finish_ack fresh credits t).rto ≡ t.rto)
  unfolding finish_ack add_credits on_new_ack
  finish_ack_lem true credits t = (refl, refl, refl, refl, refl)
  finish_ack_lem false credits t = (refl, refl, refl, refl, refl)

  -- An ACK settles exactly the fire-and-forget entries up to its number, returns them in their
  -- order, and leaves all others in theirs; it adds the granted credits up to the limit of a
  -- u32, and changes neither the dedup window nor the next number.
  pub process_ack_lem :
      (now : ℕ) (s : ReliableSession F) (ack : AckPayload)
      → ((process_ack now s ack).1 ≡ settled ack.ack_seq s.retransmit_queue)
        × ((process_ack now s ack).0.retransmit_queue ≡ waiting ack.ack_seq s.retransmit_queue)
        × ((process_ack now s ack).0.available_credits
            ≡ min (s.available_credits + ack.credit_grant) u32_max)
        × ((process_ack now s ack).0.next_seq ≡ s.next_seq)
        × ((process_ack now s ack).0.dedup ≡ s.dedup)
  unfolding process_ack
  process_ack_lem now s ack =
      let n = ack.ack_seq in
      let q = s.retransmit_queue in
      let fresh = ltb s.last_ack_seq n in
      let r = ack_loop now n fresh q s [] [] in
      let (removed, kept) = ack_loop_lists now n fresh q s [] [] in
      let same = ack_loop-OnlyRtt now n fresh q s [] [] in
      let (queue, credits, next, dedup, rto) =
        finish_ack_lem fresh ack.credit_grant (record (r.0) { retransmit_queue = r.2 }) in
      (
        removed,
        queue ∙ kept,
        credits ∙ ap (λ (c : ℕ). min (c + ack.credit_grant) u32_max) same.available_credits,
        next ∙ same.next_seq,
        dedup ∙ same.dedup,
      )

  -- If the timeout lies between 200 ms and a minute, it still does after any ACK, whatever is
  -- measured and however floats behave.
  pub process_ack-RtoInRange :
      (now : ℕ) (s : ReliableSession F) (ack : AckPayload)
      → RtoInRange s
      → RtoInRange (process_ack now s ack).0
  unfolding process_ack
  process_ack-RtoInRange now s ack h =
      let fresh = ltb s.last_ack_seq ack.ack_seq in
      let r = ack_loop now ack.ack_seq fresh s.retransmit_queue s [] [] in
      let same = ack_loop-OnlyRtt now ack.ack_seq fresh s.retransmit_queue s [] [] in
      let (queue, credits, next, dedup, rto) =
        finish_ack_lem fresh ack.credit_grant (record (r.0) { retransmit_queue = r.2 }) in
      rw rto (same.in_range h)

module _ (F : Type 0) ⦃f : FloatOps F⦄ where
  -- A new session starts with its timeout in range.
  pub new-RtoInRange :
      (local remote epoch base retries credits : ℕ)
      → RtoInRange (new {F = F} local remote epoch base retries credits)
  unfolding new
  new-RtoInRange local remote epoch base retries credits = (omega arith, omega arith)

waiting-Rises : (n lo hi : ℕ) (q : List RetransmitEntry) → Rises lo q hi → Rises lo (waiting n q) hi
unfolding waiting
waiting-Rises n lo hi [] h = h
waiting-Rises n lo hi (e ∷ q) h = elim (Bool-cases (leb e.seq n && e.is_fire_and_forget)) [
  | inl acked ↦ rw acked (waiting-Rises n lo hi q (Rises-skip lo e q hi h))
  | inr open_ ↦ rw open_ (h.0, waiting-Rises n (suc e.seq) hi q h.1)
]

module _ {F : Type 0} ⦃f : FloatOps F⦄ where
  -- If the numbers in the retransmit queue rise and stay below the next number, they still do
  -- after any ACK.
  pub process_ack-IsOrdered :
      (now : ℕ) (s : ReliableSession F) (ack : AckPayload)
      → IsOrdered s
      → IsOrdered (process_ack now s ack).0
  process_ack-IsOrdered now s ack h =
      let (removed, queue, credits, next, dedup) = process_ack_lem now s ack in
      rw (queue, next) (waiting-Rises ack.ack_seq 1 s.next_seq s.retransmit_queue h)

  -- Without a new acknowledgement nothing is sampled.
  ack_loop_old :
      (now n : ℕ) (q : List RetransmitEntry) (s : ReliableSession F)
      (removed keep : List RetransmitEntry)
      → (ack_loop now n false q s removed keep).0 ≡ s
  unfolding ack_loop sample_rtt
  ack_loop_old now n [] s removed keep = refl
  ack_loop_old now n (e ∷ q) s removed keep =
      elim (Bool-cases (leb e.seq n && e.is_fire_and_forget)) [
        | inl acked ↦ rw (acked, ack_loop) (ack_loop_old now n q s (removed ++ (e ∷ [])) keep)
        | inr open_ ↦ rw (open_, ack_loop) (ack_loop_old now n q s removed (keep ++ (e ∷ [])))
      ]

  noted_lem :
      (s : ReliableSession F) (ack : AckPayload)
      → (ltb (process_ack_for_fast_retransmit s ack).0.last_ack_seq ack.ack_seq ≡ false)
        × ((process_ack_for_fast_retransmit s ack).0.cwnd ≡ s.cwnd)
        × ((process_ack_for_fast_retransmit s ack).0.srtt ≡ s.srtt)
        × ((process_ack_for_fast_retransmit s ack).0.rttvar ≡ s.rttvar)
        × ((process_ack_for_fast_retransmit s ack).0.rto ≡ s.rto)
  unfolding process_ack_for_fast_retransmit
  noted_lem s ack = elim (Bool-cases (ltb s.last_ack_seq ack.ack_seq)) [
    | inl advanced ↦ rw advanced (ground arith, refl, refl, refl, refl)
    | inr repeated ↦ elim (Bool-cases (leb 3 ((s.dup_ack_count + 1) % 2 ^ 32))) [
      | inl third ↦ rw (repeated, third) (repeated, refl, refl, refl, refl)
      | inr fewer ↦ rw (repeated, fewer) (repeated, refl, refl, refl, refl)
    ]
  ]

  finish_old_lem :
      (credits : ℕ) (t : ReliableSession F)
      → ((finish_ack false credits t).cwnd ≡ t.cwnd)
        × ((finish_ack false credits t).srtt ≡ t.srtt)
        × ((finish_ack false credits t).rttvar ≡ t.rttvar)
        × ((finish_ack false credits t).rto ≡ t.rto)
  unfolding finish_ack add_credits
  finish_old_lem credits t = (refl, refl, refl, refl)

  -- After `process_ack_for_fast_retransmit` has noted an ACK, `process_ack` of the same ACK
  -- changes neither the congestion window nor the round-trip estimate nor the timeout.
  pub noted_ack_changes_no_estimate :
      (now : ℕ) (s : ReliableSession F) (ack : AckPayload)
      → let t = (process_ack now (process_ack_for_fast_retransmit s ack).0 ack).0 in
        (t.cwnd ≡ s.cwnd) × (t.srtt ≡ s.srtt) × (t.rttvar ≡ s.rttvar) × (t.rto ≡ s.rto)
  unfolding process_ack
  noted_ack_changes_no_estimate now s ack =
      let noted = (process_ack_for_fast_retransmit s ack).0 in
      let (old, cwnd, srtt, rttvar, rto) = noted_lem s ack in
      let r = ack_loop now ack.ack_seq false noted.retransmit_queue noted [] [] in
      let kept = ack_loop_old now ack.ack_seq noted.retransmit_queue noted [] [] in
      let (c, v, w, o) =
        finish_old_lem ack.credit_grant (record (r.0) { retransmit_queue = r.2 }) in
      rw (old) (
        c ∙ ap (λ (t : ReliableSession F). t.cwnd) kept ∙ cwnd,
        v ∙ ap (λ (t : ReliableSession F). t.srtt) kept ∙ srtt,
        w ∙ ap (λ (t : ReliableSession F). t.rttvar) kept ∙ rttvar,
        o ∙ ap (λ (t : ReliableSession F). t.rto) kept ∙ rto,
      )
