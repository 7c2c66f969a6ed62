-- ===== src/Transport/Session/Sack.antt =====
-- The bitmap of a selective acknowledgement (crates/ub-transport/src/session.rs), where bit `i`
-- is for the number `ack_seq + 1 + i`.
use unibus_toy.Base.{
  ℕ, zero, suc, ◌+◌, ◌-◌, ◌*◌, ◌/◌, ◌%◌, ◌^◌, ◌≤◌, ◌<◌, bit_or, ◌≡◌, refl, ◌∙◌, ◌≢◌, inl, inr, Bool,
  true, false, ◌&&◌, ◌||◌, Option, none, some, List, arith, ltb, leb, ◌==◌, Bool-cases, length,
  get_or, set, replicate, length-set, get_or-set_self, get_or-set_ne, get_or-replicate,
}
use unibus_toy.Base.Bits.{test_bit, test_bit-bit_or, one_bit, zero-test_bit}
use unibus_toy.Transport.Dedup.{DedupWindow, is_seen}
use unibus_toy.Transport.Dedup.Invariant.{IsValid}
use unibus_toy.Transport.Dedup.Refinement.{next_expected_least}
use unibus_toy.Transport.Session.State.{ReliableSession}
use unibus_toy.Transport.Session.Receiving.{sack_loop, sack_bitmap, build_ack_payload}

-- Bit `i` of a bitmap of bytes.
abbrev pub sack_bit : List ℕ → ℕ → Bool
sack_bit bitmap i = test_bit (get_or bitmap (i / 8) 0) (i % 8)

abbrev set_sack : List ℕ → ℕ → List ℕ
set_sack bitmap i = set bitmap (i / 8) (bit_or (get_or bitmap (i / 8) 0) (2 ^ (i % 8)))

sack_bit-set_sack :
    (bitmap : List ℕ) (i j : ℕ)
    → i / 8 < length bitmap
    → sack_bit (set_sack bitmap i) j ≡ (sack_bit bitmap j || (i == j))
sack_bit-set_sack bitmap i j h = elim (Bool-cases (i / 8 == j / 8)) [
  | inl same ↦
      let q : j / 8 ≡ i / 8 = ground arith in
      let byte = get_or bitmap (i / 8) 0 in
      let power = 2 ^ (i % 8) in
      rw (q, get_or-set_self bitmap (i / 8) (bit_or byte power) 0 h)
        (ground (arith, test_bit-bit_or (j % 8) byte power, one_bit (i % 8) (j % 8)))
  | inr other ↦
      let n : i / 8 ≢ j / 8 = ground arith in
      let byte = bit_or (get_or bitmap (i / 8) 0) (2 ^ (i % 8)) in
      rw (get_or-set_ne bitmap (i / 8) (j / 8) byte 0 n) (ground arith)
]

-- After `n` rounds from bit `i` on, the bits from `i` to `i + n` tell what was seen, and the other
-- bits are as they were.
sack_loop_lem :
    (w : DedupWindow) (base n i : ℕ) (bitmap : List ℕ) (j : ℕ)
    → i + n ≤ 8 * length bitmap
    → sack_bit (sack_loop w base n i bitmap) j
      ≡ (sack_bit bitmap j || ((leb i j && ltb j (i + n)) && is_seen w ((base + j) % 2 ^ 64)))
unfolding sack_loop
sack_loop_lem w base zero i bitmap j h = ground arith
sack_loop_lem w base (suc n) i bitmap j h = elim (Bool-cases (is_seen w ((base + i) % 2 ^ 64))) [
  | inl seen ↦ rw seen (
      sack_loop_lem w base n (i + 1) (set_sack bitmap i) j
        (omega (arith, length-set bitmap (i / 8) (bit_or (get_or bitmap (i / 8) 0) (2 ^ (i % 8)))))
      ∙ rw (sack_bit-set_sack bitmap i j (omega arith)) (ground arith))
  | inr unseen ↦ rw unseen (sack_loop_lem w base n (i + 1) bitmap j (omega arith) ∙ ground arith)
]

abbrev pub bitmap_bit : Option (List ℕ) → ℕ → Bool
bitmap_bit none i = false
bitmap_bit (some bitmap) i = sack_bit bitmap i

module _ {F : Type 0} where
  sack_bit-sack_bitmap :
      (s : ReliableSession F) (ack_seq i : ℕ)
      → i < 256
      → ack_seq + 257 ≤ 2 ^ 64
      → sack_bit (sack_bitmap s ack_seq) i ≡ is_seen s.dedup (ack_seq + 1 + i)
  unfolding sack_bitmap
  sack_bit-sack_bitmap s ack_seq i h room =
      let base : (ack_seq + 1) % 2 ^ 64 ≡ ack_seq + 1 = omega arith in
      let at : (ack_seq + 1 + i) % 2 ^ 64 ≡ ack_seq + 1 + i = omega arith in
      let blank : sack_bit (replicate 32 0) i ≡ false =
        rw (get_or-replicate {A = ℕ} 32 (i / 8) 0) (zero-test_bit (i % 8)) in
      rw base (
        sack_loop_lem s.dedup (ack_seq + 1) 256 0 (replicate 32 0) i (omega arith)
        ∙ rw (blank, at) (ground arith))

  -- On a session with a valid dedup window that expects a number above 0, with 256 more below
  -- 2^64, the ACK that is built over a gap tells exactly what was received: all numbers up to
  -- `ack_seq`, not the next one, and by its 256 bits which of the numbers from the next one on.
  -- It grants all credits that were due, leaves none to grant, and keeps the dedup window.
  pub build_ack_exact :
      (s : ReliableSession F) (q i : ℕ)
      → IsValid s.dedup
      → 0 < s.dedup.next_expected
      → s.dedup.next_expected + 256 ≤ 2 ^ 64
      → q ≤ (build_ack_payload s true).1.ack_seq
      → i < 256
      → (is_seen s.dedup q ≡ true)
        × (is_seen s.dedup ((build_ack_payload s true).1.ack_seq + 1) ≡ false)
        × (bitmap_bit (build_ack_payload s true).1.sack_bitmap i
            ≡ is_seen s.dedup ((build_ack_payload s true).1.ack_seq + 1 + i))
        × ((build_ack_payload s true).1.credit_grant ≡ s.credits_to_grant)
        × ((build_ack_payload s true).0.credits_to_grant ≡ 0)
        × ((build_ack_payload s true).0.dedup ≡ s.dedup)
  unfolding build_ack_payload
  build_ack_exact s q i valid positive room upto h =
      let (least, below) = next_expected_least s.dedup valid in
      let next : s.dedup.next_expected - 1 + 1 ≡ s.dedup.next_expected = omega arith in
      (
        ground (arith, below q),
        rw next least,
        sack_bit-sack_bitmap s (s.dedup.next_expected - 1) i h (omega arith),
        refl,
        refl,
        refl,
      )
