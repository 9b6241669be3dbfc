-- ===== src/Text/Number.antt =====
-- Numbers in text: `from_str` of the integer types, and `Display`.
use vitals.Prelude.{
  ℕ, zero, suc, ◌+◌, ◌-◌, ◌*◌, ◌^◌, ◌/◌, ◌%◌, Option, none, some, [], ◌∷◌, if◌then◌else◌, ◌==◌, ltb,
  ℤ, pos, negsuc, ◌>>=◌, option_map,
}
use vitals.Text.{Text, is_digit}

-- The value of a run of digits after `acc`; any other character refuses the text.
unfoldable pub digits_value : ℕ → Text → Option ℕ
digits_value acc [] = some acc
digits_value acc (c ∷ s) =
    let rest = digits_value (acc * 10 + (c - b'0')) s in if is_digit c then rest else none

-- At least one digit.
unfoldable pub parse_digits : Text → Option ℕ
unfolding digits_value
parse_digits [] = none
parse_digits (c ∷ s) = digits_value 0 (c ∷ s)

abbrev pub below : ℕ → ℕ → Option ℕ
below bound n = if ltb n bound then some n else none

-- `parse::<u64>`: an optional `+`, digits, and no overflow.
unfoldable pub parse_u64 : Text → Option ℕ
unfolding parse_digits
parse_u64 [] = none
parse_u64 (c ∷ s) = parse_digits (if c == b'+' then s else c ∷ s) >>= below (2 ^ 64)

abbrev pub negate : ℕ → ℤ
negate zero = pos 0
negate (suc n) = negsuc n

-- `parse::<i32>` and `parse::<i64>` at `half = 2^31` and `2^63`: an optional sign, digits, in range.
unfoldable pub parse_signed : ℕ → Text → Option ℤ
unfolding parse_digits
parse_signed half [] = none
parse_signed half (c ∷ s) =
    if c == b'-'
    then option_map negate (parse_digits s >>= below (half + 1))
    else option_map pos (parse_digits (if c == b'+' then s else c ∷ s) >>= below half)

abbrev pub parse_i32 : Text → Option ℤ
parse_i32 = parse_signed (2 ^ 31)

abbrev pub parse_i64 : Text → Option ℤ
parse_i64 = parse_signed (2 ^ 63)

-- `Display` of an unsigned number: its digits, with fuel for each of them.
unfoldable pub display_from : ℕ → ℕ → Text → Text
display_from zero n rest = rest
display_from (suc fuel) n rest =
    let more = display_from fuel (n / 10) ((b'0' + n % 10) ∷ rest) in
    if ltb n 10 then (b'0' + n) ∷ rest else more

unfoldable pub display : ℕ → Text
unfolding display_from
display n = display_from (suc n) n []

unfoldable pub display_int : ℤ → Text
unfolding display
display_int (pos n) = display n
display_int (negsuc n) = b'-' ∷ display (suc n)
