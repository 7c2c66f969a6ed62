-- ===== src/Transport/Dedup/Invariant.antt =====
-- Valid windows (crates/ub-transport/src/dedup.rs), and the loop that slides them.
use unibus_toy.Base.{
  ℕ, zero, suc, ◌+◌, ◌-◌, ◌/◌, ◌%◌, ◌^◌, ◌≤◌, ◌<◌, ◌≡◌, refl, sym, ◌∙◌, Bool, true, false, ◌||◌,
  arith, ltb, leb, ◌==◌, Bool-cases, inl, inr, length, get_or, All, length-set, lt→not-leb,
}
use unibus_toy.Base.Bits.{test_bit-shift}
use unibus_toy.Transport.Dedup.{DedupWindow, is_bit_set, set_bit, slide_one, advance}
use unibus_toy.Transport.Dedup.Bitset.{
  IsWord, bit_at, length-shift_words, shift_words-IsWord, bit_at-shift_words, bit_at-with_bit,
  with_bit-IsWord,
}

-- Sixteen words, and no bit at or beyond the window's size.
pub record IsShaped (w : DedupWindow) : Type 0 where
  pub words : length w.seen ≡ 16
  pub wide : All IsWord w.seen
  pub size : w.window_size ≤ 1024
  pub clear : (i : ℕ) → w.window_size ≤ i → bit_at w.seen i ≡ false

-- Between two calls the number that is expected next has not been seen.
pub record IsValid (w : DedupWindow) : Type 0 where
  pub shaped : IsShaped w
  pub settled : bit_at w.seen 0 ≡ false

pub is_bit_set-bit_at : (w : DedupWindow) (o : ℕ) → IsShaped w → is_bit_set w o ≡ bit_at w.seen o
unfolding is_bit_set
is_bit_set-bit_at w o h = elim (Bool-cases (leb w.window_size o)) [
  | inl out ↦ rw out (sym (h.clear o (ground arith)))
  | inr inside ↦ rw inside (test_bit-shift (o % 64) (get_or w.seen (o / 64) 0))
]

pub slide_one-IsShaped : (w : DedupWindow) → IsShaped w → IsShaped (slide_one w)
unfolding slide_one
slide_one-IsShaped w h = record {
  words = length-shift_words w.seen ∙ h.words;
  wide = shift_words-IsWord w.seen h.wide;
  size = h.size;
  clear = λ i p. bit_at-shift_words w.seen i h.wide ∙ h.clear (suc i) (omega arith);
}

pub bit_at-set_bit :
    (w : DedupWindow) (o i : ℕ)
    → IsShaped w
    → o < w.window_size
    → bit_at (set_bit w o).seen i ≡ (bit_at w.seen i || (o == i))
unfolding set_bit
bit_at-set_bit w o i h p =
    rw (lt→not-leb w.window_size o p)
      (bit_at-with_bit w.seen o i (rw h.words (omega (arith, h.size))))

pub set_bit_frame :
    (w : DedupWindow) (o : ℕ)
    → ((set_bit w o).next_expected ≡ w.next_expected) × ((set_bit w o).window_size ≡ w.window_size)
unfolding set_bit
set_bit_frame w o = ground arith

pub set_bit-IsShaped :
    (w : DedupWindow) (o : ℕ) → IsShaped w → o < w.window_size → IsShaped (set_bit w o)
unfolding set_bit
set_bit-IsShaped w o h p = rw (lt→not-leb w.window_size o p) (record {
  words = length-set w.seen (o / 64) _ ∙ h.words;
  wide = with_bit-IsWord w.seen o h.wide;
  size = h.size;
  clear = λ i q.
      bit_at-with_bit w.seen o i (rw h.words (omega (arith, h.size))) ∙ ground (arith, h.clear i q);
})

-- The numbers that the window holds for received: those below it, and its bits.
unfoldable pub received : DedupWindow → ℕ → Bool
received w s = ltb s w.next_expected || bit_at w.seen (s - w.next_expected)

-- A slide over a set bit forgets nothing and adds nothing.
received-slide_one :
    (w : DedupWindow) (s : ℕ)
    → IsShaped w
    → bit_at w.seen 0 ≡ true
    → w.next_expected + 1 < 2 ^ 64
    → received (slide_one w) s ≡ received w s
unfolding received slide_one
received-slide_one w s h first room =
    let m : (w.next_expected + 1) % 2 ^ 64 ≡ w.next_expected + 1 = omega arith in
    rw m (elim (Bool-cases (ltb w.next_expected s)) [
      | inl after ↦
          let e : suc (s - (w.next_expected + 1)) ≡ s - w.next_expected = ground arith in
          rw (bit_at-shift_words w.seen (s - (w.next_expected + 1)) h.wide, e) (ground arith)
      | inr upto ↦ elim (Bool-cases (s == w.next_expected)) [
        | inl at ↦ let e : s - w.next_expected ≡ 0 = ground arith in rw (e, first) (ground arith)
        | inr before ↦ ground arith
      ]
    ])

-- What the loop of `mark_and_advance` leaves, when the bits from `n` on are clear.
pub record Advanced (n : ℕ) (w v : DedupWindow) : Type 0 where
  pub valid : IsValid v
  pub same : (s : ℕ) → received v s ≡ received w s
  pub from : w.next_expected ≤ v.next_expected
  pub upto : v.next_expected ≤ w.next_expected + n
  pub size : v.window_size ≡ w.window_size

stop : (n : ℕ) (w : DedupWindow) → IsShaped w → bit_at w.seen 0 ≡ false → Advanced n w w
stop n w h e = record {
  valid = record { shaped = h; settled = e };
  same = λ s. refl;
  from = omega arith;
  upto = omega arith;
  size = refl;
}

step :
    (n : ℕ) (w v : DedupWindow)
    → IsShaped w
    → bit_at w.seen 0 ≡ true
    → w.next_expected + suc n < 2 ^ 64
    → Advanced n (slide_one w) v
    → Advanced (suc n) w v
unfolding slide_one
step n w v h first room a = record {
  valid = a.valid;
  same = λ s. a.same s ∙ received-slide_one w s h first (omega arith);
  from = omega (arith, a.from);
  upto = omega (arith, a.upto);
  size = a.size;
}

slid :
    (n : ℕ) (w : DedupWindow)
    → IsShaped w
    → ((i : ℕ) → suc n ≤ i → bit_at w.seen i ≡ false)
    → (i : ℕ) → n ≤ i
    → bit_at (slide_one w).seen i ≡ false
unfolding slide_one
slid n w h c i p = bit_at-shift_words w.seen i h.wide ∙ c (suc i) (omega arith)

pub advance-Advanced :
    (fuel n : ℕ) (w : DedupWindow)
    → IsShaped w
    → ((i : ℕ) → n ≤ i → bit_at w.seen i ≡ false)
    → n < fuel
    → w.next_expected + n < 2 ^ 64
    → Advanced n w (advance fuel w)
unfolding advance
advance-Advanced zero n w h c f room = absurd (omega arith)
advance-Advanced (suc fuel) zero w h c f room =
    rw (is_bit_set-bit_at w 0 h, c 0 (omega arith)) (stop 0 w h (c 0 (omega arith)))
advance-Advanced (suc fuel) (suc n) w h c f room = elim (Bool-cases (bit_at w.seen 0)) [
  | inl set_first ↦
      rw (is_bit_set-bit_at w 0 h, set_first)
        (step n w (advance fuel (slide_one w)) h set_first room (
          advance-Advanced fuel n (slide_one w) (slide_one-IsShaped w h) (slid n w h c)
            (omega arith) (unfold slide_one in omega arith)))
  | inr unset ↦ rw (is_bit_set-bit_at w 0 h, unset) (stop (suc n) w h unset)
]
