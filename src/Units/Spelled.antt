-- ===== src/Units/Spelled.antt =====
-- Sizes and durations as the documents and the rule files spell them, read by `parse_size` and
-- `parse_duration`.
use Prim.Native.String.{String}
use mathlib.Core.List.{reverse, reverse-append, reverse-reverse}
use vitals.Prelude.{
  ◌⊎◌, inl, inr, Option-cases, ℕ, ◌*◌, ◌≡◌, ◌≢◌, refl, sym, ap, ◌∙◌, subst, Bool, false, true, ◌||◌,
  ◌==◌, List, [], ◌∷◌, ◌++◌, All, All-map, All-append, All-reverse, append_assoc, append-nil,
  option_map, arith,
}
use vitals.Text.Lines.{
  StartsSolid, StartsSolid-append, StartsSolid-All, trim_start-StartsSolid, reverse-ne-nil,
}
use vitals.Text.Words.{IsSolid}
use vitals.Text.{Text, codes, is_digit, is_whitespace, strip_suffix, trim, trim_start_matches}
use vitals.Units.{split_unit}

-- A character of a decimal number, its sign and its exponent included.
abbrev is_figure : ℕ → Bool
is_figure c = is_digit c || (c == b'.' || (c == b'-' || (c == b'+' || (c == b'e' || c == b'E'))))

abbrev pub IsFigure : ℕ → Type 0
IsFigure c = is_figure c ≡ true

abbrev pub IsSpace : ℕ → Type 0
IsSpace c = is_whitespace c ≡ true

-- What stands before a unit: figures and white space, of which no unit has any.
abbrev is_before : ℕ → Bool
is_before c = is_figure c || is_whitespace c

abbrev IsBefore : ℕ → Type 0
IsBefore c = is_before c ≡ true

abbrev pub StartsUnit : Text → Type 0
StartsUnit [] = ⊥
StartsUnit (c ∷ s) = is_before c ≡ false

differ : (d c : ℕ) → is_before d ≡ false → IsBefore c → (d == c) ≡ false
differ d c out inside = ground arith

figure-IsBefore : (c : ℕ) → IsFigure c → IsBefore c
figure-IsBefore c h = rw h refl

space-IsBefore : (c : ℕ) → IsSpace c → IsBefore c
space-IsBefore c h = ground arith

figure-IsSolid : (c : ℕ) → IsFigure c → IsSolid c
unfolding is_whitespace
figure-IsSolid c h = ground arith

strip_suffix-before :
    (s p t : Text)
    → StartsUnit p
    → All IsBefore s
    → strip_suffix p (s ++ t) ≡ option_map (◌++◌ s) (strip_suffix p t)
unfolding strip_suffix
strip_suffix-before s [] t h all = absurd h
strip_suffix-before [] (d ∷ p) t h all = elim (Option-cases (strip_suffix (d ∷ p) t)) [
  | inl none' ↦ rw none' refl
  | inr (rest, some') ↦ rw some' refl
]
strip_suffix-before (c ∷ s) (d ∷ p) t h all =
    let later = strip_suffix-before s (d ∷ p) t h all.1 in
    elim (Option-cases (strip_suffix (d ∷ p) t)) [
      | inl none' ↦ rw (differ d c h all.0, later, none') refl
      | inr (rest, some') ↦ rw (differ d c h all.0, later, some') refl
    ]

-- The ladder of suffixes looks only at the unit.
split_unit-before :
    (units : List (String × ℕ)) (factor : ℕ) (s t : Text)
    → All (λ u. StartsUnit (codes u.0)) units
    → All IsBefore s
    → split_unit units factor (s ++ t)
      ≡ (s ++ (split_unit units factor t).0, (split_unit units factor t).1)
unfolding split_unit
split_unit-before [] factor s t h all = refl
split_unit-before ((suffix, k) ∷ more) factor s t h all =
    let later = split_unit-before more factor s t h.1 all in
    let here' = strip_suffix-before s (codes suffix) t h.0 all in
    elim (Option-cases (strip_suffix (codes suffix) t)) [
      | inl none' ↦ rw (here', split_unit, none', later) refl
      | inr (rest, some') ↦ rw (here', split_unit, some') refl
    ]

trim_start-spaces :
    (lead s : Text)
    → All IsSpace lead
    → trim_start_matches is_whitespace (lead ++ s) ≡ trim_start_matches is_whitespace s
unfolding trim_start_matches
trim_start-spaces [] s all = refl
trim_start-spaces (c ∷ lead) s all = rw all.0 (trim_start-spaces lead s all.1)

trim-padded :
    (lead s trail : Text)
    → All IsSpace lead
    → All IsSpace trail
    → StartsSolid s
    → StartsSolid (reverse s)
    → trim (lead ++ (s ++ trail)) ≡ s
unfolding trim
trim-padded lead s trail l t h k =
    let left =
      trim_start-spaces lead (s ++ trail) l
      ∙ trim_start-StartsSolid (s ++ trail) (StartsSolid-append s trail h) in
    let right =
      ap (trim_start_matches is_whitespace) (reverse-append s trail)
      ∙ trim_start-spaces (reverse trail) (reverse s) (All-reverse IsSpace trail t)
      ∙ trim_start-StartsSolid (reverse s) k in
    ap (λ x. reverse (trim_start_matches is_whitespace (reverse x))) left
    ∙ ap reverse right
    ∙ reverse-reverse s

-- The units, each with its spelling and what it stands for: bytes, or milliseconds.
pub data SizeUnit : Type 0 where
  no_unit byte kilo kilobyte mega megabyte giga gigabyte : SizeUnit

abbrev pub size_name : SizeUnit → Text
size_name no_unit = []
size_name byte = codes "B"
size_name kilo = codes "K"
size_name kilobyte = codes "KB"
size_name mega = codes "M"
size_name megabyte = codes "MB"
size_name giga = codes "G"
size_name gigabyte = codes "GB"

abbrev pub size_in_bytes : SizeUnit → ℕ
size_in_bytes no_unit = 1
size_in_bytes byte = 1
size_in_bytes kilo = 1024
size_in_bytes kilobyte = 1024
size_in_bytes mega = 1024 * 1024
size_in_bytes megabyte = 1024 * 1024
size_in_bytes giga = 1024 * 1024 * 1024
size_in_bytes gigabyte = 1024 * 1024 * 1024

pub data TimeUnit : Type 0 where
  no_time millisecond second minute hour : TimeUnit

abbrev pub time_name : TimeUnit → Text
time_name no_time = []
time_name millisecond = codes "ms"
time_name second = codes "s"
time_name minute = codes "m"
time_name hour = codes "h"

abbrev pub time_in_ms : TimeUnit → ℕ
time_in_ms no_time = 1000
time_in_ms millisecond = 1
time_in_ms second = 1000
time_in_ms minute = 60 * 1000
time_in_ms hour = 60 * 60 * 1000

-- A number with white space around it and before its unit, if it has one.
pub record Spelling : Type 0 where
  pub lead : Text
  pub number : Text
  pub gap : Text
  pub trail : Text

pub record IsSpelling (s : Spelling) : Type 0 where
  pub lead : All IsSpace s.lead
  pub some_number : s.number ≢ []
  pub number : All IsFigure s.number
  pub gap : All IsSpace s.gap
  pub trail : All IsSpace s.trail

abbrev pub spelled : Spelling → Text → Text
spelled s [] = s.lead ++ (s.number ++ s.trail)
spelled s (c ∷ name) = s.lead ++ ((s.number ++ (s.gap ++ c ∷ name)) ++ s.trail)

abbrev pub IsUnit : Text → Type 0
IsUnit name = (name ≡ []) ⊎ StartsSolid (reverse name)

module _ (s : Spelling) (w : IsSpelling s) where
  number-StartsSolid : StartsSolid s.number
  number-StartsSolid =
      StartsSolid-All s.number w.some_number (All-map s.number figure-IsSolid w.number)

  number-EndsSolid : StartsSolid (reverse s.number)
  number-EndsSolid =
      StartsSolid-All (reverse s.number) (reverse-ne-nil s.number w.some_number)
        (All-reverse IsSolid s.number (All-map s.number figure-IsSolid w.number))

  -- What `trim` leaves of it, and of the number before a unit.
  pub trim-number : (gap : Text) → All IsSpace gap → trim (s.number ++ gap) ≡ s.number
  trim-number gap all = trim-padded [] s.number gap tt all number-StartsSolid number-EndsSolid

  pub split-spelled :
      (units : List (String × ℕ)) (factor k : ℕ) (name : Text)
      → All (λ u. StartsUnit (codes u.0)) units
      → IsUnit name
      → split_unit units factor name ≡ ([], k)
      → (gap : Text) × All IsSpace gap
        × (split_unit units factor (trim (spelled s name)) ≡ (s.number ++ gap, k))
  split-spelled units factor k [] h ends is = (
    [],
    tt,
    ap (split_unit units factor) (
          trim-padded s.lead s.number s.trail w.lead w.trail number-StartsSolid number-EndsSolid
          ∙ sym (append-nil s.number))
        ∙ split_unit-before units factor s.number [] h (All-map s.number figure-IsBefore w.number)
        ∙ ap (λ x. (s.number ++ x.0, x.1)) is,
  )
  split-spelled units factor k (c ∷ name) h (inl none') is = ground arith
  split-spelled units factor k (c ∷ name) h (inr ends) is =
      let whole_text = s.number ++ (s.gap ++ c ∷ name) in
      let assoc = append_assoc s.number s.gap (c ∷ name) in
      let ends' : StartsSolid (reverse whole_text) =
        subst (λ t. StartsSolid (reverse t)) assoc
          (subst StartsSolid (sym (reverse-append (s.number ++ s.gap) (c ∷ name)))
            (StartsSolid-append (reverse (c ∷ name)) _ ends)) in
      (
        s.gap,
        w.gap,
        ap (split_unit units factor) (
              trim-padded s.lead whole_text s.trail w.lead w.trail
                (StartsSolid-append s.number _ number-StartsSolid) ends'
              ∙ sym assoc)
            ∙ split_unit-before units factor (s.number ++ s.gap) (c ∷ name) h (
                All-append IsBefore s.number s.gap (All-map s.number figure-IsBefore w.number)
                  (All-map s.gap space-IsBefore w.gap))
            ∙ ap (λ x. ((s.number ++ s.gap) ++ x.0, x.1)) is
            ∙ ap (λ t. (t, k)) (append-nil (s.number ++ s.gap)),
      )
