-- ===== src/Units/Tests.antt =====
-- Runs of src/units.rs, and its properties at concrete values.
use vitals.Float.Whole.{whole}
use vitals.Prelude.{ℕ, ◌*◌, ◌^◌, option_map, ◌≡◌, refl, none, some, List, [], ◌∷◌, ◌++◌, All, arith}
use vitals.Text.Number.{parse_u64}
use vitals.Text.{codes, is_whitespace}
use vitals.Units.Auxv.{entry, entries, IsEntry, last_value, parse_auxv-entries}
use vitals.Units.Quantities.{in_unit, parse-spelled}
use vitals.Units.Spelled.{Spelling, IsSpelling, megabyte, millisecond}
use vitals.Units.{at_clktck, at_pagesz, parse_auxv, parse_size, parse_duration}

abbrev auxv : List (ℕ × ℕ)
auxv = (6, 4096) ∷ (33, 7) ∷ (17, 100) ∷ []

auxv-IsEntry : All IsEntry auxv
auxv-IsEntry = (
  ((λ e. omega arith), omega arith, omega arith),
  (
    ((λ e. omega arith), omega arith, omega arith),
    (((λ e. omega arith), omega arith, omega arith), tt),
  ),
)

parse_auxv-entries_example :
    parse_auxv (entries auxv ++ (entry (0, 0) ++ 1 ∷ 2 ∷ []))
    ≡ (last_value at_clktck auxv none, last_value at_pagesz auxv none)
parse_auxv-entries_example = parse_auxv-entries auxv 0 (1 ∷ 2 ∷ []) auxv-IsEntry (omega arith)

two_gigabytes : parse_size whole (codes "2GB") ≡ some 2147483648
unfolding parse_size parse_u64
two_gigabytes = refl

half_a_second : parse_duration whole (codes "500ms") ≡ some 500000000
unfolding parse_duration parse_u64
half_a_second = refl

-- ` 500 MB ` and `5s` with the same white space.
abbrev five_hundred : Spelling
five_hundred = record { lead = codes " "; number = codes "500"; gap = codes " "; trail = codes " " }

five_hundred-IsSpelling : IsSpelling five_hundred
unfolding is_whitespace
five_hundred-IsSpelling = record {
  lead = (refl, tt);
  some_number = λ e. ground arith;
  number = (refl, (refl, (refl, tt)));
  gap = (refl, tt);
  trail = (refl, tt);
}

parse-spelled_example :
    (parse_size whole (codes " 500 MB ") ≡ in_unit whole (codes "500") (1024 * 1024))
    × (parse_duration whole (codes " 500 ms ")
        ≡ option_map (λ ms. ms * 10 ^ 6) (in_unit whole (codes "500") 1))
parse-spelled_example =
    parse-spelled whole five_hundred megabyte millisecond five_hundred-IsSpelling

five_hundred_megabytes : in_unit whole (codes "500") (1024 * 1024) ≡ some 524288000
unfolding parse_u64
five_hundred_megabytes = refl
