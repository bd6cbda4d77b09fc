-- ===== src/Core/Domain/Naturals.antt =====
-- Natural numbers in the place of `f64`, for examples.
use anomstream.Prelude.{ℕ, ◌+◌, ◌-◌, ◌*◌, ◌/◌, true, leb, ltb, min, max, ◌==◌}
use anomstream.Core.Domain.Arith.{Arith}

abbrev pub nat : Arith ℕ
nat = record {
  zero = 0;
  le = leb;
  lt = ltb;
  add = λ a b. a + b;
  sub = λ a b. a - b;
  mul = λ a b. a * b;
  div = λ a b. a / b;
  min = min;
  max = max;
  of_u64 = λ n. n;
  is_finite = λ a. true;
  is_tiny = λ a. a == 0;
  fast_min = min;
  fast_max = max;
  reduce_add = λ a b c d. a + b + (c + d);
}
