-- ===== src/Bench/Floats/Thousandths.antt =====
-- Floats as numbers of thousandths, for the tests.
use zhtps.Common.{ℕ, ◌+◌, ◌-◌, ◌*◌, ◌/◌, true, ltb, ◌==◌, str_ℕ, pos}
use zhtps.Bench.Floats.{Floats}

abbrev pub thousandths : Floats
thousandths = record {
  F = ℕ;
  literal = λ n d. n * 1000 / d;
  plus = λ a b. a + b;
  minus = λ a b. a - b;
  times = λ a b. a * b / 1000;
  over = λ a b. a * 1000 / b;
  is_below = ltb;
  is_zero = λ a. a == 0;
  is_finite = λ a. true;
  truncate = λ a. pos (a / 1000);
  show = str_ℕ;
}
