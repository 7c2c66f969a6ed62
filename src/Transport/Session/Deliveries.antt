-- ===== src/Transport/Session/Deliveries.antt =====
-- The receiving side of a session (crates/ub-transport/src/session.rs) over runs of arrivals.
use unibus_toy.Base.{
  ℕ, zero, suc, ◌+◌, ◌*◌, ◌^◌, ◌≤◌, ◌<◌, ◌≡◌, refl, sym, ◌∙◌, inl, inr, Bool, true, false, not,
  ◌&&◌, ◌||◌, List, [], ◌∷◌, arith, ◌==◌, if◌then◌else◌, Bool-cases, length,
}
use unibus_toy.Transport.Dedup
use unibus_toy.Transport.Dedup.{
  DedupWindow, DedupResult, already_seen, in_order, check, mark_and_advance, is_seen,
}
use unibus_toy.Transport.Dedup.Invariant.{IsValid}
use unibus_toy.Transport.Dedup.Refinement.{
  HasRoom, in_window, mark_and_advance-IsValid, is_seen-mark_and_advance, next_expected_least,
  check-is_seen,
}
use unibus_toy.Transport.Session.State.{
  ReliableSession, ReceiveAction, deliver, duplicate, out_of_order, beyond_window,
}
use unibus_toy.Transport.Session.Receiving.{act_on, mark_seen, receive_frame}

-- What one arrival does to the window, whatever the window answers.
pub record Arrived (w v : DedupWindow) (n : ℕ) : Type 0 where
  pub valid : IsValid v
  pub seen : (s : ℕ) → is_seen v s ≡ (is_seen w s || ((n == s) && in_window w n))
  pub upto : v.next_expected ≤ w.next_expected + w.window_size
  pub size : v.window_size ≡ w.window_size

unfoldable pub window_after : DedupWindow → ℕ → DedupResult → DedupWindow
window_after w n already_seen = w
window_after w n in_order = mark_and_advance w n
window_after w n Dedup.out_of_order = mark_and_advance w n
window_after w n Dedup.beyond_window = w

unfoldable pub action_of : DedupResult → ReceiveAction
action_of already_seen = duplicate
action_of in_order = deliver
action_of Dedup.out_of_order = out_of_order
action_of Dedup.beyond_window = beyond_window

module _ {F : Type 0} where
  act_on_lem :
      (r : DedupResult) (n : ℕ) (s : ReliableSession F)
      → ((act_on r n s).0.dedup ≡ window_after s.dedup n r) × ((act_on r n s).1 ≡ action_of r)
  unfolding act_on mark_seen window_after action_of
  act_on_lem already_seen n s = (refl, refl)
  act_on_lem _ n s = (refl, refl)

  pub receive_frame_lem :
      (s : ReliableSession F) (n : ℕ)
      → ((receive_frame s n).0.dedup ≡ window_after s.dedup n (check s.dedup n))
        × ((receive_frame s n).1 ≡ action_of (check s.dedup n))
  unfolding receive_frame
  receive_frame_lem s n = act_on_lem (check s.dedup n) n _

module _ {F : Type 0} where
  act_on-state :
      (r : DedupResult) (n : ℕ) (s : ReliableSession F) → (act_on r n s).0.state ≡ s.state
  unfolding act_on mark_seen
  act_on-state already_seen n s = refl
  act_on-state _ n s = refl

  pub receive_frame-state : (s : ReliableSession F) (n : ℕ) → (receive_frame s n).0.state ≡ s.state
  unfolding receive_frame
  receive_frame-state s n = act_on-state (check s.dedup n) n _

marked : (w : DedupWindow) (n : ℕ) → IsValid w → HasRoom w → Arrived w (mark_and_advance w n) n
marked w n h room =
    let (valid, from, upto, size) = mark_and_advance-IsValid w n h room in
    record {
      valid = valid;
      seen = λ s. is_seen-mark_and_advance w n s h room;
      upto = upto;
      size = size;
    }

already :
    (w : DedupWindow) (n s : ℕ)
    → (is_seen w n || not (in_window w n)) ≡ true
    → is_seen w s ≡ (is_seen w s || ((n == s) && in_window w n))
already w n s e = ground arith

unmoved :
    (w : DedupWindow) (n : ℕ)
    → IsValid w
    → (is_seen w n || not (in_window w n)) ≡ true
    → Arrived w w n
unmoved w n h e = record { valid = h; seen = λ s. already w n s e; upto = omega arith; size = refl }

pub arrive :
    (w : DedupWindow) (n : ℕ) → IsValid w → HasRoom w → Arrived w (window_after w n (check w n)) n
unfolding window_after
arrive w n h room = elim (Bool-cases (is_seen w n)) [
  | inl seen ↦ rw (check-is_seen w n h, seen, window_after) (unmoved w n h (rw seen))
  | inr new ↦ elim (Bool-cases (n == w.next_expected)) [
    | inl next ↦ rw (check-is_seen w n h, new, next, window_after) (marked w n h room)
    | inr ahead ↦ elim (Bool-cases (in_window w n)) [
      | inl inside ↦ rw (check-is_seen w n h, new, ahead, inside, window_after) (marked w n h room)
      | inr beyond ↦
          rw (check-is_seen w n h, new, ahead, beyond, window_after)
            (unmoved w n h (rw (new, beyond)))
    ]
  ]
]

abbrev pub is_deliver : ReceiveAction → Bool
is_deliver deliver = true
is_deliver _ = false

module _ {F : Type 0} where
  -- How often a run of arrivals delivers the number `q`.
  unfoldable pub deliveries : ℕ → ReliableSession F → List ℕ → ℕ
  deliveries q s [] = 0
  deliveries q s (n ∷ ns) =
      (if (n == q) && is_deliver (receive_frame s n).1 then 1 else 0)
      + deliveries q (receive_frame s n).0 ns

  -- The window has room for `k` arrivals.
  abbrev pub RoomFor : ReliableSession F → ℕ → Type 0
  RoomFor s k = s.dedup.next_expected + 1024 * k < 2 ^ 64

  pub received :
      (s : ReliableSession F) (n k : ℕ)
      → IsValid s.dedup
      → RoomFor s (suc k)
      → Arrived s.dedup (receive_frame s n).0.dedup n × RoomFor (receive_frame s n).0 k
  received s n k h room =
      let a : Arrived s.dedup (receive_frame s n).0.dedup n =
        rw ((receive_frame_lem s n).0) (arrive s.dedup n h (omega (arith, h.shaped.size))) in
      (a, omega (arith, a.upto, h.shaped.size))

  -- On a session with a valid dedup window an arrival is delivered exactly when it is the number
  -- expected.
  pub delivered_iff :
      (s : ReliableSession F) (n : ℕ)
      → IsValid s.dedup
      → is_deliver (receive_frame s n).1 ≡ (n == s.dedup.next_expected)
  delivered_iff s n h =
      rw ((receive_frame_lem s n).1, check-is_seen s.dedup n h)
        (unfold action_of in ground (arith, (next_expected_least s.dedup h).0))

  seen_never_delivered :
      (q : ℕ) (ns : List ℕ) (s : ReliableSession F)
      → IsValid s.dedup
      → RoomFor s (length ns)
      → is_seen s.dedup q ≡ true
      → deliveries q s ns ≡ 0
  unfolding deliveries
  seen_never_delivered q [] s h room seen = refl
  seen_never_delivered q (n ∷ ns) s h room seen =
      let (a, room') = received s n (length ns) h room in
      let still : is_seen (receive_frame s n).0.dedup q ≡ true = a.seen q ∙ rw seen in
      let rest = seen_never_delivered q ns (receive_frame s n).0 a.valid room' still in
      rw rest (ground (arith, delivered_iff s n h, (next_expected_least s.dedup h).0))

  -- From a session with a valid dedup window that is not empty and has room for the run,
  -- whatever arrives, in whatever order and however often, no number is delivered more than
  -- once.
  pub deliveries-le_one :
      (q : ℕ) (ns : List ℕ) (s : ReliableSession F)
      → IsValid s.dedup
      → 0 < s.dedup.window_size
      → RoomFor s (length ns)
      → deliveries q s ns ≤ 1
  unfolding deliveries
  deliveries-le_one q [] s h open_ room = omega arith
  deliveries-le_one q (n ∷ ns) s h open_ room =
      let (a, room') = received s n (length ns) h room in
      let s' = (receive_frame s n).0 in
      let rest = deliveries-le_one q ns s' a.valid (omega (arith, a.size)) room' in
      elim (Bool-cases ((n == q) && is_deliver (receive_frame s n).1)) [
        | inl now ↦
            let seen : is_seen s'.dedup q ≡ true = a.seen q ∙ ground (arith, delivered_iff s n h) in
            rw (now, seen_never_delivered q ns s' a.valid room' seen) (omega arith)
        | inr later ↦ rw later (omega arith)
      ]

-- Nothing at or past the number expected has been seen.
abbrev pub IsFresh : DedupWindow → Type 0
IsFresh w = (s : ℕ) → w.next_expected ≤ s → is_seen w s ≡ false

-- The `k` numbers from `n` on.
abbrev pub count_from : ℕ → ℕ → List ℕ
count_from n zero = []
count_from n (suc k) = n ∷ count_from (n + 1) k

module _ {F : Type 0} where
  unfoldable pub all_delivered : ReliableSession F → List ℕ → Bool
  all_delivered s [] = true
  all_delivered s (n ∷ ns) =
      is_deliver (receive_frame s n).1 && all_delivered (receive_frame s n).0 ns

  -- In order, the expected number moves up by one and all beyond it stays unseen.
  in_order_step :
      (s : ReliableSession F) {n : ℕ}
      → n ≡ s.dedup.next_expected
      → IsValid s.dedup
      → 0 < s.dedup.window_size
      → IsFresh s.dedup
      → Arrived s.dedup (receive_frame s n).0.dedup n
      → ((receive_frame s n).0.dedup.next_expected ≡ n + 1) × IsFresh (receive_frame s n).0.dedup
  in_order_step s {n} e h open_ fresh a =
      let v = (receive_frame s n).0.dedup in
      let unseen : (q : ℕ) → n + 1 ≤ q → is_seen v q ≡ false =
        λ q p. a.seen q ∙ ground (arith, fresh q) in
      let seen : (q : ℕ) → q ≤ n → is_seen v q ≡ true =
        λ q p. a.seen q ∙ ground (arith, (next_expected_least s.dedup h).1 q) in
      let (least, below) = next_expected_least v a.valid in
      let next : v.next_expected ≡ n + 1 =
        ground (arith, below (n + 1), unseen (n + 1), seen v.next_expected, least) in
      (next, λ q p. unseen q (omega (arith, next)))

  -- From a session with a valid dedup window that is not empty, has room for the run and has
  -- seen nothing from its expected number on, a run of arrivals that starts there and goes up by
  -- one has every arrival delivered.
  pub in_order_all_delivered :
      (k n : ℕ) (s : ReliableSession F)
      → n ≡ s.dedup.next_expected
      → IsValid s.dedup
      → 0 < s.dedup.window_size
      → RoomFor s k
      → IsFresh s.dedup
      → all_delivered s (count_from n k) ≡ true
  unfolding all_delivered
  in_order_all_delivered zero n s e h open_ room fresh = refl
  in_order_all_delivered (suc k) n s e h open_ room fresh =
      let (a, room') = received s n k h room in
      let (next, fresh') = in_order_step s e h open_ fresh a in
      let first : is_deliver (receive_frame s n).1 ≡ true = delivered_iff s n h ∙ ground arith in
      rw first (
        in_order_all_delivered k (n + 1) (receive_frame s n).0 (sym next) a.valid
          (omega (arith, a.size)) room' fresh')
