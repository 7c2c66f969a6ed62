-- ===== src/Tests/Dedup.antt =====
-- crates/ub-transport/src/dedup.rs at concrete inputs.
use unibus_toy.Base.{◌+◌, ◌≤◌, ◌≡◌, refl, ◌&&◌, ◌||◌, arith, ◌==◌, if◌then◌else◌}
use unibus_toy.Transport.Dedup.{
  DedupWindow, already_seen, in_order, out_of_order, beyond_window, new, with_window_size,
  is_bit_set, set_bit, shift_words, slide_one, advance, check, mark_and_advance, is_seen,
}
use unibus_toy.Transport.Dedup.Invariant.{IsValid}
use unibus_toy.Transport.Dedup.Refinement.{
  in_window, with_window_size-IsValid, is_seen-mark_and_advance, mark_and_advance-IsValid,
  check-is_seen,
}

abbrev fresh : DedupWindow
fresh = with_window_size 0 1024

fresh-IsValid : IsValid fresh
fresh-IsValid = with_window_size-IsValid 0 1024 (omega arith)

-- `test_gap_fill_advances_next_expected`
gap_fill : (mark_and_advance (mark_and_advance (mark_and_advance (new 0) 2) 0) 1).next_expected ≡ 3
unfolding mark_and_advance advance slide_one shift_words set_bit is_bit_set new
gap_fill = refl

is_seen-mark_and_advance_example :
    is_seen (mark_and_advance fresh 5) 5 ≡ (is_seen fresh 5 || ((5 == 5) && in_window fresh 5))
unfolding with_window_size
is_seen-mark_and_advance_example = is_seen-mark_and_advance fresh 5 5 fresh-IsValid (omega arith)

mark_and_advance-IsValid_example :
    IsValid (mark_and_advance fresh 5)
    × (fresh.next_expected ≤ (mark_and_advance fresh 5).next_expected)
    × ((mark_and_advance fresh 5).next_expected ≤ fresh.next_expected + fresh.window_size)
    × ((mark_and_advance fresh 5).window_size ≡ fresh.window_size)
unfolding with_window_size
mark_and_advance-IsValid_example = mark_and_advance-IsValid fresh 5 fresh-IsValid (omega arith)

check-is_seen_example : check fresh 1024 ≡ (
    if is_seen fresh 1024
    then already_seen
    else if 1024 == fresh.next_expected
    then in_order
    else if in_window fresh 1024
    then out_of_order
    else beyond_window)
check-is_seen_example = check-is_seen fresh 1024 fresh-IsValid
