-- ===== src/Wire/Codec/Reading.antt =====
-- Fields of fixed size and copies of bytes in crates/ub-wire/src/codec.rs, read back.
use unibus_toy.Base.{
  ℕ, ◌^◌, ◌<◌, ◌≡◌, false, List, ◌++◌, arith, ltb, length, take, drop, length-append, drop-append,
  take-append,
}
use mathlib.Core.Path.{subst}
use unibus_toy.Core.Error.{ok}
use unibus_toy.Core.Bytes.{be_bytes, length-be_bytes, from_be-be_bytes}
use unibus_toy.Wire.Codec.{read_exact, read_be, slice_from}

pub read_exact-append :
    (n : ℕ) (bs rest : List ℕ) → length bs ≡ n → read_exact n (bs ++ rest) ≡ ok (bs, rest)
unfolding read_exact
read_exact-append n bs rest e =
    subst (λ k. read_exact k (bs ++ rest) ≡ ok (bs, rest)) e
      (let enough : ltb (length (bs ++ rest)) (length bs) ≡ false =
          ground (arith, length-append bs rest) in
        rw (enough, take-append bs rest, drop-append bs rest))

-- Reading a number back leaves what follows it.
pub read_be-append :
    (n v : ℕ) (rest : List ℕ) → v < 256 ^ n → read_be n (be_bytes n v ++ rest) ≡ ok (v, rest)
unfolding read_be
read_be-append n v rest h =
    let bs = be_bytes n v in
    let all = bs ++ rest in
    let e = length-be_bytes n v in
    let enough : ltb (length all) n ≡ false = ground (arith, length-append bs rest, e) in
    let front : take n all ≡ bs = subst (λ k. take k all ≡ bs) e (take-append bs rest) in
    let back : drop n all ≡ rest = subst (λ k. drop k all ≡ rest) e (drop-append bs rest) in
    rw (enough, front, back, from_be-be_bytes n v h)

pub slice_from-append :
    (n : ℕ) (bs rest : List ℕ) → length bs ≡ n → slice_from n (bs ++ rest) ≡ ok rest
unfolding slice_from
slice_from-append n bs rest e =
    subst (λ k. slice_from k (bs ++ rest) ≡ ok rest) e
      (let enough : ltb (length (bs ++ rest)) (length bs) ≡ false =
          ground (arith, length-append bs rest) in
        rw (enough, drop-append bs rest))
