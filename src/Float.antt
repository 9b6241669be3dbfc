-- ===== src/Float.antt =====
-- `f64`, which the language defines and the repository does not: its operations as an interface, so
-- that every theorem holds of any arithmetic with the laws that the theorem names.
pub mod Whole
use vitals.Prelude.{
  ℕ, ◌+◌, ◌/◌, ◌%◌, ◌^◌, ◌<◌, ◌≡◌, ◌⊎◌, Bool, true, false, not, Option, none, some, if◌then◌else◌,
  ℤ, pos, negsuc, ltb, leb, ◌*◌, List, [], ◌∷◌, ltb_ℤ, arith, pos_part, neg_part, word, Bool-cases,
  inl, inr, ◌≤◌, min,
}
use vitals.Text.{Text}

pub record Float {ℓ} (W : Type ℓ) : Type ℓ where
  -- `<` and `<=`; `a > b` is `b < a`, and `a >= b` is `b <= a`. All are false at NaN.
  pub lt : W → W → Bool
  pub le : W → W → Bool
  pub add : W → W → W
  pub mul : W → W → W
  pub div : W → W → W
  -- `as f64` from an integer type, and the literals of whole numbers.
  pub of_int : ℤ → W
  -- `as u64`, which saturates; `as usize` is the same.
  pub to_u64 : W → ℕ
  pub round : W → W
  -- `str::parse::<f64>`, and `{:.n}`.
  pub parse : Text → Option W
  pub fixed : ℕ → W → Text
  pub is_finite : W → Bool

-- What comparison promises, whatever the rounding. NaN is what is not `<=` itself.
pub record IsOrdered {ℓ} {W : Type ℓ} (f : Float W) : Type ℓ where
  pub lt_of_le_of_lt : (a b c : W) → f.le a b ≡ true → f.lt b c ≡ true → f.lt a c ≡ true
  pub lt_of_lt_of_le : (a b c : W) → f.lt a b ≡ true → f.le b c ≡ true → f.lt a c ≡ true
  pub lt_asymm : (a b : W) → f.lt a b ≡ true → f.lt b a ≡ false
  pub le_of_not_lt :
      (a b : W) → f.le a a ≡ true → f.le b b ≡ true → f.lt a b ≡ false → f.le b a ≡ true
  -- Conversion from a whole number keeps the order, and gives no NaN.
  pub int_mono : (m n : ℕ) → m ≤ n → f.le (f.of_int (pos m)) (f.of_int (pos n)) ≡ true
  -- Nor does the scaled ratio of two `u64`s, the second not 0.
  pub ratio_number :
      (m n k : ℕ)
      → m < word
      → 0 < n
      → n < word
      → k < word
      → let x = f.mul (f.div (f.of_int (pos m)) (f.of_int (pos n))) (f.of_int (pos k)) in
        f.le x x ≡ true

-- What scaling by a whole number, rounding and the cast to an integer promise: they keep the order,
-- whole numbers up to 2^53 are exact, and NaN stays NaN until the cast makes it 0.
pub record IsRounding {ℓ} {W : Type ℓ} (f : Float W) : Type ℓ where
  pub scale_mono :
      (a b : W) (n : ℕ)
      → 0 < n
      → f.le a b ≡ true
      → f.le (f.mul a (f.of_int (pos n))) (f.mul b (f.of_int (pos n))) ≡ true
  pub one_scale : (n : ℕ) → f.mul (f.of_int (pos 1)) (f.of_int (pos n)) ≡ f.of_int (pos n)
  pub scale_nan :
      (a : W) (n : ℕ) → f.le a a ≡ false → let x = f.mul a (f.of_int (pos n)) in f.le x x ≡ false
  pub round_mono : (a b : W) → f.le a b ≡ true → f.le (f.round a) (f.round b) ≡ true
  pub round_whole : (n : ℕ) → f.round (f.of_int (pos n)) ≡ f.of_int (pos n)
  pub round_nan : (a : W) → f.le a a ≡ false → f.le (f.round a) (f.round a) ≡ false
  pub to_u64_mono : (a b : W) → f.le a b ≡ true → f.to_u64 a ≤ f.to_u64 b
  pub to_u64_whole : (n : ℕ) → n < 2 ^ 53 → f.to_u64 (f.of_int (pos n)) ≡ n
  pub to_u64_nan : (a : W) → f.le a a ≡ false → f.to_u64 a ≡ 0

module _ {ℓ} {W : Type ℓ} (f : Float W) where
  abbrev pub of_nat : ℕ → W
  of_nat n = f.of_int (pos n)

  -- `f64::clamp`.
  unfoldable pub clamp : W → W → W → W
  clamp lo hi x = let y = if f.lt x lo then lo else x in if f.lt hi y then hi else y

  -- `Duration::as_secs_f64`, on a duration in nanoseconds.
  unfoldable pub as_secs_f64 : ℕ → W
  as_secs_f64 d = f.add (of_nat (d / 10 ^ 9)) (f.div (of_nat (d % 10 ^ 9)) (of_nat (10 ^ 9)))

  -- A number clamped to a range lies in it.
  pub clamp_bounds :
      IsOrdered f
      → (lo hi x : W) → f.le lo hi ≡ true
      → f.le lo lo ≡ true
      → f.le hi hi ≡ true
      → f.le x x ≡ true
      → (f.le lo (clamp lo hi x) ≡ true) × (f.le (clamp lo hi x) hi ≡ true)
  unfolding clamp
  clamp_bounds ord lo hi x range l h n = ground (
    arith,
    ord.le_of_not_lt x lo n l,
    ord.le_of_not_lt hi x h n,
    ord.lt_asymm hi lo,
    ord.le_of_not_lt hi lo h l,
  )
