-- ===== src/Transport/Dedup/Refinement.antt =====
-- The window of crates/ub-transport/src/dedup.rs against the set of numbers received.
use unibus_toy.Base.{
  ℕ, ◌+◌, ◌-◌, ◌*◌, ◌/◌, ◌%◌, ◌^◌, ◌≤◌, ◌<◌, ◌≡◌, refl, ◌∙◌, ◌⊎◌, inl, inr, Bool, true, false, ◌&&◌,
  ◌||◌, arith, ltb, leb, ◌==◌, if◌then◌else◌, lt→not-leb, get_or, replicate, get_or-replicate,
}
use unibus_toy.Base.Bits.{test_bit, zero-test_bit}
use unibus_toy.Transport.Dedup.{
  DedupWindow, already_seen, in_order, out_of_order, beyond_window, with_window_size, set_bit,
  check, mark_and_advance, is_seen,
}
use unibus_toy.Transport.Dedup.Bitset.{bit_at}
use unibus_toy.Transport.Dedup.Invariant.{
  IsShaped, IsValid, Advanced, received, is_bit_set-bit_at, bit_at-set_bit, set_bit-IsShaped,
  set_bit_frame, advance-Advanced,
}

-- The window ends below 2 ^ 64, so that no number in it wraps.
abbrev pub HasRoom : DedupWindow → Type 0
HasRoom w = w.next_expected + w.window_size < 2 ^ 64

-- `seq` can be marked: it is not beyond the window.
abbrev pub in_window : DedupWindow → ℕ → Bool
in_window w seq = ltb seq (w.next_expected + w.window_size)

-- A new or reset window is valid, and has received exactly the numbers below its start.
pub with_window_size-IsValid : (seq size : ℕ) → size ≤ 1024 → IsValid (with_window_size seq size)
unfolding with_window_size
with_window_size-IsValid seq size h = record {
  shaped = record {
    words = refl;
    wide = omega arith;
    size = h;
    clear = λ i p. rw (get_or-replicate {A = ℕ} 16 (i / 64) 0) (zero-test_bit (i % 64));
  };
  settled = refl;
}

pub is_seen-received : (w : DedupWindow) (s : ℕ) → IsShaped w → is_seen w s ≡ received w s
unfolding is_seen received
is_seen-received w s h =
    ground (arith, is_bit_set-bit_at w (s - w.next_expected) h, h.clear (s - w.next_expected))

pub is_seen-with_window_size :
    (seq size q : ℕ) → size ≤ 1024 → is_seen (with_window_size seq size) q ≡ ltb q seq
unfolding received with_window_size
is_seen-with_window_size seq size q h =
    let i = q - seq in
    let blank : test_bit (get_or (replicate 16 0) (i / 64) 0) (i % 64) ≡ false =
      rw (get_or-replicate {A = ℕ} 16 (i / 64) 0) (zero-test_bit (i % 64)) in
    is_seen-received (with_window_size seq size) q (with_window_size-IsValid seq size h).shaped
    ∙ rw blank (ground arith)

received-set_bit :
    (w : DedupWindow) (q s : ℕ)
    → IsShaped w
    → w.next_expected ≤ q
    → q - w.next_expected < w.window_size
    → received (set_bit w (q - w.next_expected)) s ≡ (received w s || (q == s))
unfolding received
received-set_bit w q s h from inside = ground (
  arith,
  set_bit_frame w (q - w.next_expected),
  bit_at-set_bit w (q - w.next_expected) (s - w.next_expected) h inside,
)

-- In the window, `mark_and_advance` sets the bit and slides.
mark-Advanced :
    (w : DedupWindow) (q : ℕ)
    → IsShaped w
    → HasRoom w
    → w.next_expected ≤ q
    → q - w.next_expected < w.window_size
    → Advanced w.window_size (set_bit w (q - w.next_expected)) (mark_and_advance w q)
unfolding mark_and_advance
mark-Advanced w q h room from inside =
    let o = q - w.next_expected in
    let shaped : IsShaped (set_bit w o) = set_bit-IsShaped w o h inside in
    let (next, size) = set_bit_frame w o in
    let below : ltb q w.next_expected ≡ false = ground arith in
    rw (below, lt→not-leb w.window_size o inside)
      (advance-Advanced 1025 w.window_size (set_bit w o) shaped
        (λ i p. shaped.clear i (omega (arith, size))) (omega (arith, h.size)) (omega (arith, next)))

-- A number below the window or beyond it changes nothing.
mark_outside :
    (w : DedupWindow) (q : ℕ)
    → (ltb q w.next_expected || leb w.window_size (q - w.next_expected)) ≡ true
    → mark_and_advance w q ≡ w
unfolding mark_and_advance
mark_outside w q h = ground arith

inside_or_outside :
    (w : DedupWindow) (q : ℕ)
    → ((ltb q w.next_expected || leb w.window_size (q - w.next_expected)) ≡ true)
      ⊎ ((w.next_expected ≤ q) × (q - w.next_expected < w.window_size))
inside_or_outside w q = ground arith

-- On a valid window whose numbers stay below 2^64 as it slides, marking any number leaves a
-- valid window of the same size, whose expected number is unseen and has moved up by the size at
-- most.
pub mark_and_advance-IsValid :
    (w : DedupWindow) (q : ℕ)
    → IsValid w
    → HasRoom w
    → IsValid (mark_and_advance w q)
      × (w.next_expected ≤ (mark_and_advance w q).next_expected)
      × ((mark_and_advance w q).next_expected ≤ w.next_expected + w.window_size)
      × ((mark_and_advance w q).window_size ≡ w.window_size)
mark_and_advance-IsValid w q h room = elim (inside_or_outside w q) [
  | inl out ↦ rw (mark_outside w q out) (h, omega arith, omega arith, refl)
  | inr (from, inside) ↦
      let a = mark-Advanced w q h.shaped room from inside in
      let (next, size) = set_bit_frame w (q - w.next_expected) in
      (a.valid, omega (arith, a.from), omega (arith, a.upto), a.size ∙ size)
]

received-mark :
    (w : DedupWindow) (q s : ℕ)
    → IsValid w
    → HasRoom w
    → received (mark_and_advance w q) s ≡ (received w s || ((q == s) && in_window w q))
received-mark w q s h room = elim (inside_or_outside w q) [
  | inl out ↦ rw (mark_outside w q out) (unfold received in ground arith)
  | inr (from, inside) ↦
      let a = mark-Advanced w q h.shaped room from inside in
      a.same s ∙ received-set_bit w q s h.shaped from inside ∙ ground arith
]

-- The dedup window refines the set of numbers received: on a valid window whose numbers stay
-- below 2^64 as it slides, marking `q` adds `q` to the numbers seen when it lies below the
-- window's end, and changes no other answer of `is_seen`, however far the window slides.
pub is_seen-mark_and_advance :
    (w : DedupWindow) (q s : ℕ)
    → IsValid w
    → HasRoom w
    → is_seen (mark_and_advance w q) s ≡ (is_seen w s || ((q == s) && in_window w q))
is_seen-mark_and_advance w q s h room =
    let v = (mark_and_advance-IsValid w q h room).0 in
    rw (is_seen-received (mark_and_advance w q) s v.shaped, is_seen-received w s h.shaped)
      (received-mark w q s h room)

-- A valid window expects the least number that it has not seen.
pub next_expected_least :
    (w : DedupWindow)
    → IsValid w
    → (is_seen w w.next_expected ≡ false) × ((s : ℕ) → is_seen w s ≡ false → w.next_expected ≤ s)
unfolding is_seen
next_expected_least w h =
    let e : w.next_expected - w.next_expected ≡ 0 = omega arith in
    (rw (e, is_bit_set-bit_at w 0 h.shaped, h.settled) (ground arith), λ s p. ground arith)

-- On a valid window `check` answers for every number by whether it was seen, whether it is the
-- one expected, and whether it lies below the window's end.
pub check-is_seen :
    (w : DedupWindow) (s : ℕ)
    → IsValid w
    → check w s ≡ (
        if is_seen w s
        then already_seen
        else if s == w.next_expected
        then in_order
        else if in_window w s
        then out_of_order
        else beyond_window)
unfolding check is_seen
check-is_seen w s h = ground (arith, is_bit_set-bit_at w (s - w.next_expected) h.shaped, settled_at)
  where
    settled_at : s - w.next_expected ≡ 0 → bit_at w.seen (s - w.next_expected) ≡ false
    settled_at e = rw e h.settled

seen→duplicate :
    (w : DedupWindow) (s : ℕ) → IsValid w → is_seen w s ≡ true → check w s ≡ already_seen
seen→duplicate w s h e = check-is_seen w s h ∙ rw e

-- Once marked inside a valid window, a number is a duplicate, and it stays one whatever number
-- is marked next, where the numbers of two windows stay below 2^64.
pub check-mark_twice :
    (w : DedupWindow) (q r : ℕ)
    → IsValid w
    → w.next_expected + 2 * w.window_size < 2 ^ 64
    → in_window w q ≡ true
    → (check (mark_and_advance w q) q ≡ already_seen)
      × (check (mark_and_advance (mark_and_advance w q) r) q ≡ already_seen)
check-mark_twice w q r h room inside =
    let m = mark_and_advance w q in
    let (v, from, upto, size) = mark_and_advance-IsValid w q h (omega arith) in
    let room' : HasRoom m = omega (arith, size) in
    let e : is_seen m q ≡ true =
      is_seen-mark_and_advance w q q h (omega arith) ∙ rw inside (ground arith) in
    let e' : is_seen (mark_and_advance m r) q ≡ true =
      is_seen-mark_and_advance m r q v room' ∙ rw e in
    (
      seen→duplicate m q v e,
      seen→duplicate (mark_and_advance m r) q (mark_and_advance-IsValid m r v room').0 e',
    )
