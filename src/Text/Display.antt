-- ===== src/Text/Display.antt =====
-- About numbers printed and read back.
use vitals.Prelude.{
  ℕ, zero, suc, ◌+◌, ◌^◌, ◌/◌, ◌%◌, ◌<◌, ◌≤◌, ◌≡◌, ◌≢◌, refl, ◌∙◌, subst, true, false, ◌||◌, some,
  [], ◌∷◌, ◌==◌, ltb, lt→ltb, ℤ, pos, negsuc, neg_part, pos_part, ◌>>=◌, option_map, arith, All,
  All-map, inl, inr, Bool-cases,
}
use vitals.Text.Number.{
  digits_value, parse_digits, below, parse_u64, parse_signed, display_from, display, display_int,
}
use vitals.Text.{Text, is_digit}

abbrev pub IsDigit : ℕ → Type 0
IsDigit c = is_digit c ≡ true

-- A digit, or the sign of a negative number.
abbrev pub IsNumeric : ℕ → Type 0
IsNumeric c = is_digit c || c == b'-' ≡ true

digits_value-display_from :
    (fuel n : ℕ) (rest : Text)
    → n < fuel
    → digits_value 0 (display_from fuel n rest) ≡ digits_value n rest
unfolding digits_value display_from
digits_value-display_from zero n rest h = absurd (omega arith)
digits_value-display_from (suc fuel) n rest h = elim (Bool-cases (ltb n 10)) [
  | inl one ↦ rw one (ground arith)
  | inr more ↦ rw more (
      digits_value-display_from fuel (n / 10) ((b'0' + n % 10) ∷ rest) (ground arith)
      ∙ ground arith)
]

-- A text that starts with a digit.
abbrev StartsNumber : Text → Type 0
StartsNumber [] = ⊥
StartsNumber (c ∷ s) = IsDigit c

display_from-StartsNumber :
    (fuel n : ℕ) (rest : Text) → n < fuel → StartsNumber (display_from fuel n rest)
unfolding display_from
display_from-StartsNumber zero n rest h = absurd (omega arith)
display_from-StartsNumber (suc fuel) n rest h = elim (Bool-cases (ltb n 10)) [
  | inl one ↦ rw one (ground arith)
  | inr more ↦
      rw more (display_from-StartsNumber fuel (n / 10) ((b'0' + n % 10) ∷ rest) (ground arith))
]

display_from-All :
    (fuel n : ℕ) (rest : Text) → All IsDigit rest → All IsDigit (display_from fuel n rest)
unfolding display_from
display_from-All zero n rest all = all
display_from-All (suc fuel) n rest all = elim (Bool-cases (ltb n 10)) [
  | inl one ↦ rw one (ground arith, all)
  | inr more ↦ rw more (display_from-All fuel (n / 10) ((b'0' + n % 10) ∷ rest) (ground arith, all))
]

pub display-All : (n : ℕ) → All IsDigit (display n)
unfolding display
display-All n = display_from-All (suc n) n [] tt

display-StartsNumber : (n : ℕ) → StartsNumber (display n)
unfolding display
display-StartsNumber n = display_from-StartsNumber (suc n) n [] (omega arith)

parse_digits_start : (s : Text) → StartsNumber s → parse_digits s ≡ digits_value 0 s
unfolding parse_digits
parse_digits_start [] h = absurd h
parse_digits_start (c ∷ s) h = refl

pub parse_digits-display : (n : ℕ) → parse_digits (display n) ≡ some n
parse_digits-display n =
    parse_digits_start (display n) (display-StartsNumber n)
    ∙ unfold display digits_value in digits_value-display_from (suc n) n [] (omega arith)

parse_u64_start : (s : Text) → StartsNumber s → parse_u64 s ≡ (parse_digits s >>= below (2 ^ 64))
unfolding parse_u64
parse_u64_start [] h = absurd h
parse_u64_start (c ∷ s) h = let e : (c == b'+') ≡ false = ground arith in rw e refl

-- A `u64` printed in decimal parses back.
pub parse_u64-display : (n : ℕ) → n < 2 ^ 64 → parse_u64 (display n) ≡ some n
parse_u64-display n h =
    parse_u64_start (display n) (display-StartsNumber n)
    ∙ rw (parse_digits-display n) (rw (lt→ltb n (2 ^ 64) h) refl)

parse_signed_start :
    (half : ℕ) (s : Text)
    → StartsNumber s
    → parse_signed half s ≡ option_map pos (parse_digits s >>= below half)
unfolding parse_signed
parse_signed_start half [] h = absurd h
parse_signed_start half (c ∷ s) h =
    let plus : (c == b'+') ≡ false = ground arith in
    let minus : (c == b'-') ≡ false = ground arith in rw (plus, minus) refl

-- The integers of a signed type whose least is `-half`.
abbrev pub Fits : ℕ → ℤ → Type 0
Fits half z = (pos_part z < half) × (neg_part z ≤ half)

-- So does an integer of a signed type.
pub parse_signed-display_int :
    (half : ℕ) (z : ℤ) → Fits half z → parse_signed half (display_int z) ≡ some z
unfolding display_int
parse_signed-display_int half (pos n) (h, k) =
    parse_signed_start half (display n) (display-StartsNumber n)
    ∙ rw (parse_digits-display n) (rw (lt→ltb n half h) refl)
parse_signed-display_int half (negsuc n) (h, k) =
    unfold parse_signed in
    rw (parse_digits-display (suc n))
      (let e : ltb (suc n) (half + 1) ≡ true = lt→ltb (suc n) (half + 1) (omega arith) in rw e refl)

pub display_int-All : (z : ℤ) → All IsNumeric (display_int z)
unfolding display_int
display_int-All (pos n) = All-map (display n) (λ c h. ground arith) (display-All n)
display_int-All (negsuc n) =
    (refl, All-map (display (suc n)) (λ c h. ground arith) (display-All (suc n)))

pub display-ne-nil : (n : ℕ) → display n ≢ []
display-ne-nil n e = subst StartsNumber e (display-StartsNumber n)

pub display_int-ne-nil : (z : ℤ) → display_int z ≢ []
unfolding display_int
display_int-ne-nil (pos n) e = display-ne-nil n e
display_int-ne-nil (negsuc n) e = cc
