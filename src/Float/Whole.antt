-- ===== src/Float/Whole.antt =====
-- A number type with the laws of `IsOrdered`: whole numbers, for the tests.
use vitals.Float.{Float, IsOrdered, IsRounding}
use vitals.Prelude.{ℕ, ◌+◌, ◌*◌, ◌/◌, true, pos_part, ltb, leb, arith, refl, leb→le}
use native.Mathlib.Nat.{mul-le-mul_right}
use vitals.Text.Number.{parse_u64, display}

abbrev pub whole : Float ℕ
whole = record {
  lt = ltb;
  le = leb;
  add = λ a b. a + b;
  mul = λ a b. a * b;
  div = λ a b. a / b;
  of_int = pos_part;
  to_u64 = λ a. a;
  round = λ a. a;
  parse = parse_u64;
  fixed = λ n a. display a;
  is_finite = λ a. true;
}

pub whole-IsOrdered : IsOrdered whole
whole-IsOrdered = record {
  lt_of_le_of_lt = λ a b c h k. ground arith;
  lt_of_lt_of_le = λ a b c h k. ground arith;
  lt_asymm = λ a b h. ground arith;
  le_of_not_lt = λ a b ha hb h. ground arith;
  int_mono = λ m n h. ground arith;
  ratio_number = λ m n k hm hn hn' hk. ground arith;
}

pub whole-IsRounding : IsRounding whole
whole-IsRounding = record {
  scale_mono = λ a b n h k. ground (arith, mul-le-mul_right {m = a} {n = b} n (leb→le a b k));
  one_scale = λ n. omega arith;
  scale_nan = λ a n h. ground arith;
  round_mono = λ a b h. h;
  round_whole = λ n. refl;
  round_nan = λ a h. h;
  to_u64_mono = λ a b h. ground arith;
  to_u64_whole = λ n h. refl;
  to_u64_nan = λ a h. ground arith;
}
