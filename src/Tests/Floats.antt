-- ===== src/Tests/Floats.antt =====
-- The `f64` of the tests: numbers that count thousandths, without a sign.
use unibus_toy.Base.{ℕ, ◌+◌, ◌-◌, ◌*◌, ◌/◌, ltb}
use unibus_toy.Transport.Session.State.{FloatOps}

instance abbrev pub thousandths : FloatOps ℕ
thousandths = record {
  of_u64 = λ n. n * 1000;
  plus = λ a b. a + b;
  minus = λ a b. a - b;
  times = λ a b. a * b / 1000;
  half_of = λ a. a / 2;
  absolute = λ a. a;
  is_positive = λ a. ltb 0 a;
  round_u64 = λ a. (a + 500) / 1000;
  eighths_7 = 875;
  eighth = 125;
  quarters_3 = 750;
  quarter = 250;
  four = 4000;
}
