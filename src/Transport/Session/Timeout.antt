-- ===== src/Transport/Session/Timeout.antt =====
-- The retransmission timer of a session (crates/ub-transport/src/session.rs).
use unibus_toy.Base.{
  ℕ, suc, ◌+◌, ◌*◌, ◌%◌, ◌^◌, ◌<◌, min, ◌≡◌, refl, ap, inl, inr, Bool, true, false, not, ◌&&◌, ◌||◌,
  List, [], ◌∷◌, arith, ltb, leb, if◌then◌else◌, Bool-cases, All,
}
use unibus_toy.Transport.Session.State.{ReliableSession, RetransmitEntry, active, dead, kill}
use unibus_toy.Transport.Session.Sending.{rto_loop, check_rto, on_loss, nonempty}
use unibus_toy.Transport.Session.Queue.{Rises}

-- An expired entry has used up its retries.
unfoldable pub exhausted : ℕ → ℕ → List RetransmitEntry → Bool
exhausted now max_retries [] = false
exhausted now max_retries (e ∷ q) =
    (leb e.rto_deadline now && leb max_retries e.retry_count) || exhausted now max_retries q

-- The numbers of the expired entries.
unfoldable pub expired : ℕ → List RetransmitEntry → List ℕ
expired now [] = []
expired now (e ∷ q) =
    let rest = expired now q in if leb e.rto_deadline now then e.seq ∷ rest else rest

-- What a sweep does to an entry.
unfoldable pub swept : ℕ → ℕ → List RetransmitEntry → List RetransmitEntry
swept now base [] = []
swept now base (e ∷ q) =
    (if leb e.rto_deadline now
      then record e {
        retry_count = e.retry_count + 1;
        rto_deadline = now + base * 2 ^ min (e.retry_count + 1) 10 % 2 ^ 64 * 1_000_000;
      }
      else e)
    ∷ swept now base q

-- No counter of retries is about to wrap.
abbrev pub FewRetries : RetransmitEntry → Type 0
FewRetries e = e.retry_count + 1 < 2 ^ 32

rto_loop_lem :
    (now m base : ℕ) (q : List RetransmitEntry)
    → All FewRetries q
    → ((rto_loop now m base q).2 ≡ exhausted now m q)
      × (exhausted now m q ≡ false → (rto_loop now m base q).1 ≡ expired now q)
      × (exhausted now m q ≡ false → (rto_loop now m base q).0 ≡ swept now base q)
unfolding rto_loop exhausted expired swept
rto_loop_lem now m base [] h = (refl, λ _. refl, λ _. refl)
rto_loop_lem now m base (e ∷ q) h =
    let few : (e.retry_count + 1) % 2 ^ 32 ≡ e.retry_count + 1 = omega (arith, h.0) in
    let (killed, seqs, entries) = rto_loop_lem now m base q h.1 in
    elim (Bool-cases (leb e.rto_deadline now)) [
      | inl late ↦ elim (Bool-cases (ltb m (e.retry_count + 1))) [
        | inl spent ↦
            let spent' : leb m e.retry_count ≡ true = ground arith in
            rw (few, late, spent, spent') (refl, λ p. cc, λ p. cc)
        | inr left ↦
            let left' : leb m e.retry_count ≡ false = ground arith in
            let retried : RetransmitEntry = record e {
              retry_count = e.retry_count + 1;
              rto_deadline = now + base * 2 ^ min (e.retry_count + 1) 10 % 2 ^ 64 * 1_000_000;
            } in
            rw (few, late, left, left')
              (killed, λ p. ap (◌∷◌ e.seq) (seqs p), λ p. ap (◌∷◌ retried) (entries p))
      ]
      | inr early ↦ rw early (killed, seqs, λ p. ap (◌∷◌ e) (entries p))
    ]

swept-Rises :
    (now base lo hi : ℕ) (q : List RetransmitEntry) → Rises lo q hi → Rises lo (swept now base q) hi
unfolding swept
swept-Rises now base lo hi [] h = h
swept-Rises now base lo hi (e ∷ q) h = elim (Bool-cases (leb e.rto_deadline now)) [
  | inl late ↦ rw late (h.0, swept-Rises now base (suc e.seq) hi q h.1)
  | inr early ↦ rw early (h.0, swept-Rises now base (suc e.seq) hi q h.1)
]

module _ {F : Type 0} where
  -- A dead session stays as it is.
  pub check_rto_dead :
      (now : ℕ) (s : ReliableSession F) → s.state ≡ dead → check_rto now s ≡ (s, [])
  unfolding check_rto
  check_rto_dead now s e = simp (e, check_rto)

  -- On an active session whose retry counters are not about to wrap, the timer gives the session
  -- up when an expired entry has no retry left: it is then dead, its queue is empty, and nothing
  -- is sent. Otherwise the timer returns the numbers of exactly the expired entries in their
  -- order, counts a retry and sets a backed-off deadline for each of them, leaves the other
  -- entries, and sets the congestion window to one frame when any entry expired. The next number
  -- stays the same.
  pub check_rto_lem :
      (now : ℕ) (s : ReliableSession F)
      → s.state ≡ active
      → All FewRetries s.retransmit_queue
      → let gone = exhausted now s.max_retries s.retransmit_queue in
        let late = expired now s.retransmit_queue in
        let r = check_rto now s in
        (r.1 ≡ (if gone then [] else late))
        × (r.0.retransmit_queue ≡ (if gone then [] else swept now s.rto_base_ms s.retransmit_queue))
        × (r.0.state ≡ (if gone then dead else active))
        × (r.0.cwnd ≡ (if not gone && nonempty late then 1 else s.cwnd))
        × (r.0.next_seq ≡ s.next_seq)
  unfolding check_rto kill on_loss
  check_rto_lem now s live few =
      let q = s.retransmit_queue in
      let (killed, seqs, entries) = rto_loop_lem now s.max_retries s.rto_base_ms q few in
      elim (Bool-cases (exhausted now s.max_retries q)) [
        | inl gone ↦ rw (live, check_rto, killed, gone) (refl, refl, refl, refl, refl)
        | inr still ↦ elim (Bool-cases (nonempty (expired now q))) [
          | inl some_late ↦
              rw (live, check_rto, killed, still, seqs still, entries still, some_late)
                (refl, refl, live, refl, refl)
          | inr none_late ↦
              rw (live, check_rto, killed, still, seqs still, entries still, none_late)
                (refl, refl, live, refl, refl)
        ]
      ]
