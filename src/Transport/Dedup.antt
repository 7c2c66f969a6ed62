-- ===== src/Transport/Dedup.antt =====
-- crates/ub-transport/src/dedup.rs: the sliding window that tells repeated sequence numbers.
-- A `u64` is a number below 2 ^ 64, and an array a list. The program computes offsets inside the
-- 1024 bits only; `get_or _ _ 0` stands for an index that Rust would refuse.
pub mod Bitset
pub mod Invariant
pub mod Refinement
use unibus_toy.Base.{
  ℕ, zero, suc, ◌+◌, ◌-◌, ◌*◌, ◌/◌, ◌%◌, ◌^◌, bit_and, bit_or, Bool, true, false, List, [], ◌∷◌,
  ltb, leb, ◌==◌, if◌then◌else◌, get_or, set, replicate,
}

pub data DedupResult : Type 0 where
  already_seen in_order out_of_order beyond_window : DedupResult

-- Bit `i` of `seen` stands for the number `next_expected + i`.
pub record DedupWindow : Type 0 where
  pub next_expected : ℕ
  pub seen : List ℕ
  pub window_size : ℕ

-- `window_size` is fixed at 1024 by `new`; `with_window_size` asserts that it is at most that.
unfoldable pub new : ℕ → DedupWindow
new initial_seq = record { next_expected = initial_seq; seen = replicate 16 0; window_size = 1024 }

unfoldable pub with_window_size : ℕ → ℕ → DedupWindow
with_window_size initial_seq window_size = record {
  next_expected = initial_seq;
  seen = replicate 16 0;
  window_size = window_size;
}

unfoldable pub is_bit_set : DedupWindow → ℕ → Bool
is_bit_set w offset =
    if leb w.window_size offset
    then false
    else bit_and (get_or w.seen (offset / 64) 0 / 2 ^ (offset % 64)) 1 == 1

unfoldable pub set_bit : DedupWindow → ℕ → DedupWindow
set_bit w offset = if leb w.window_size offset then w else record w {
  seen = set w.seen (offset / 64) (bit_or (get_or w.seen (offset / 64) 0) (2 ^ (offset % 64)));
}

-- The loop of `slide_one`: round `i` reads word `i + 1` before round `i + 1` changes it.
unfoldable pub shift_words : List ℕ → List ℕ
shift_words [] = []
shift_words (x ∷ []) = bit_or (x / 2) 0 ∷ []
shift_words (x ∷ y ∷ rest) = bit_or (x / 2) (bit_and y 1 * 2 ^ 63) ∷ shift_words (y ∷ rest)

unfoldable pub slide_one : DedupWindow → DedupWindow
slide_one w = record w { next_expected = (w.next_expected + 1) % 2 ^ 64; seen = shift_words w.seen }

-- `while self.is_bit_set(0) { self.slide_one() }`, with fuel.
unfoldable pub advance : ℕ → DedupWindow → DedupWindow
advance zero w = w
advance (suc fuel) w = let rest = advance fuel (slide_one w) in if is_bit_set w 0 then rest else w

unfoldable pub check : DedupWindow → ℕ → DedupResult
check w seq =
    if ltb seq w.next_expected
    then already_seen
    else if seq == w.next_expected
    then in_order
    else if leb w.window_size (seq - w.next_expected)
    then beyond_window
    else if is_bit_set w (seq - w.next_expected)
    then already_seen
    else out_of_order

-- A slide drops the lowest of 1024 bits, so 1024 rounds and the test that ends them are enough.
unfoldable pub mark_and_advance : DedupWindow → ℕ → DedupWindow
mark_and_advance w seq =
    if ltb seq w.next_expected
    then w
    else if leb w.window_size (seq - w.next_expected)
    then w
    else advance 1025 (set_bit w (seq - w.next_expected))

unfoldable pub is_seen : DedupWindow → ℕ → Bool
is_seen w seq =
    if ltb seq w.next_expected
    then true
    else if leb w.window_size (seq - w.next_expected)
    then false
    else is_bit_set w (seq - w.next_expected)

unfoldable pub reset : DedupWindow → DedupWindow
reset w = record w { next_expected = 0; seen = replicate 16 0 }

unfoldable pub reset_to : DedupWindow → ℕ → DedupWindow
reset_to w initial_seq = record w { next_expected = initial_seq; seen = replicate 16 0 }
