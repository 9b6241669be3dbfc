-- ===== src/Text.antt =====
-- Text as the program walks it: a `str` is the list of its characters' code points. These are the
-- functions of the standard library that the parsers call; no code of the repository stands here.
-- Offsets into a `str` are byte offsets in the source; there they only cut next to ASCII characters,
-- where cutting the bytes and cutting the characters is the same.
pub mod Number
pub mod Display
pub mod Words
pub mod Columns
pub mod Feeds
pub mod Lines
use Prim.Native.Char.{code}
use Prim.Native.String.{String}
use vitals.Prelude.{
  ◌≡◌, ◌↔◌, arith, ℕ, zero, suc, ◌+◌, ◌-◌, Bool, true, false, not, ◌&&◌, ◌||◌, Option, none, some,
  List, [], ◌∷◌, ◌++◌, if◌then◌else◌, ◌==◌, leb, ltb, Eq, list_beq, list_eq, nat_eq, option_map,
}
use mathlib.Core.List.{reverse}

abbrev pub Text : Type 0
Text = List ℕ

-- The code points of a literal.
abbrev pub codes : String → Text
codes String.[] = []
codes (String.◌∷◌ c s) = code c ∷ codes s

-- `==` on `str`.
abbrev pub str_eq : Text → Text → Bool
str_eq [] [] = true
str_eq [] (d ∷ t) = false
str_eq (c ∷ s) [] = false
str_eq (c ∷ s) (d ∷ t) = c == d && str_eq s t

abbrev pub is_empty : Text → Bool
is_empty [] = true
is_empty (c ∷ s) = false

abbrev pub is_digit : ℕ → Bool
is_digit c = leb b'0' c && leb c b'9'

-- `u8::is_ascii_whitespace`: space, tab, line feed, form feed, carriage return.
abbrev pub is_ascii_whitespace : ℕ → Bool
is_ascii_whitespace c = c == 32 || c == 9 || c == 10 || c == 12 || c == 13

-- `char::is_whitespace`, the Unicode property White_Space.
unfoldable pub is_whitespace : ℕ → Bool
is_whitespace c =
    (leb 9 c && leb c 13)
    || c == 32
    || c == 0x85
    || c == 0xa0
    || c == 0x1680
    || (leb 0x2000 c && leb c 0x200a)
    || c == 0x2028
    || c == 0x2029
    || c == 0x202f
    || c == 0x205f
    || c == 0x3000

-- `trim_start_matches`.
unfoldable pub trim_start_matches : (ℕ → Bool) → Text → Text
trim_start_matches p [] = []
trim_start_matches p (c ∷ s) = if p c then trim_start_matches p s else c ∷ s

unfoldable pub trim : Text → Text
unfolding trim_start_matches is_whitespace
trim s = reverse (trim_start_matches is_whitespace (reverse (trim_start_matches is_whitespace s)))

unfoldable pub strip_prefix : Text → Text → Option Text
strip_prefix [] s = some s
strip_prefix (d ∷ p) [] = none
strip_prefix (d ∷ p) (c ∷ s) = if d == c then strip_prefix p s else none

-- `strip_suffix`: the text before, if the text ends so.
unfoldable pub strip_suffix : Text → Text → Option Text
strip_suffix p [] = if is_empty p then some [] else none
strip_suffix p (c ∷ s) =
    let rest = strip_suffix p s in
    if str_eq p (c ∷ s) then some [] else elim rest [ none ↦ none | some t ↦ some (c ∷ t) ]

abbrev starts_with_char : (ℕ → Bool) → Text → Bool
starts_with_char p [] = false
starts_with_char p (c ∷ s) = p c

abbrev push_front : ℕ → List Text → List Text
push_front c [] = (c ∷ []) ∷ []
push_front c (t ∷ ts) = (c ∷ t) ∷ ts

-- `split_ascii_whitespace`.
unfoldable pub split_ascii_whitespace : Text → List Text
split_ascii_whitespace [] = []
split_ascii_whitespace (c ∷ s) =
    let rest = split_ascii_whitespace s in
    if is_ascii_whitespace c
    then rest
    else if starts_with_char (λ d. not (is_ascii_whitespace d)) s
    then push_front c rest
    else (c ∷ []) ∷ rest

-- `lines`: a line ends at `\n` or `\r\n`, and the last one may lack its end.
unfoldable pub lines : Text → List Text
lines [] = []
lines (c ∷ s) =
    let rest = lines s in
    if c == 10
    then [] ∷ rest
    else if c == 13 && starts_with_char (λ d. d == 10) s
    then rest
    else push_front c rest

-- The text before the first `c`, all of it if there is none: `split(c).next()`.
unfoldable pub before : ℕ → Text → Text
before c [] = []
before c (d ∷ s) = if d == c then [] else d ∷ before c s

-- `split_once(c)`; also both items of `splitn(2, c)`.
unfoldable pub split_once : ℕ → Text → Option (Text × Text)
split_once c [] = none
split_once c (d ∷ s) =
    if d == c
    then some ([], s)
    else elim (split_once c s) [ none ↦ none | some (a, b) ↦ some (d ∷ a, b) ]

-- `find` and `rfind` of a character: the first and the last place where it stands.
unfoldable pub find : ℕ → Text → Option ℕ
find c [] = none
find c (d ∷ s) = if d == c then some 0 else option_map suc (find c s)

unfoldable pub rfind : ℕ → Text → Option ℕ
rfind c [] = none
rfind c (d ∷ s) = elim (rfind c s) [
  | some i ↦ some (suc i)
  | none ↦ if d == c then some 0 else none
]

pub str_eq_iff : (s t : Text) → (str_eq s t ≡ true) ↔ (s ≡ t)
str_eq_iff [] [] = ground arith
str_eq_iff [] (d ∷ t) = ground arith
str_eq_iff (c ∷ s) [] = ground arith
str_eq_iff (c ∷ s) (d ∷ t) = ground (arith, str_eq_iff s t)
