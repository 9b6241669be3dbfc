-- ===== src/Units/Quantities.antt =====
-- Sizes and durations that are spelled with a unit, read by `parse_size` and `parse_duration`.
use vitals.Float.{Float, of_nat}
use vitals.Prelude.{
  ℕ, ◌*◌, ◌^◌, ◌≡◌, refl, ap, ◌∙◌, Option, none, some, [], All, ◌++◌, if◌then◌else◌, ◌>>=◌,
  option_map, inl, inr,
}
use vitals.Text.{Text, codes, is_whitespace}
use vitals.Units.Spelled.{
  SizeUnit, no_unit, byte, kilo, kilobyte, mega, megabyte, giga, gigabyte, size_name, size_in_bytes,
  TimeUnit, no_time, millisecond, second, minute, hour, time_name, time_in_ms, Spelling, IsSpelling,
  IsSpace, IsUnit, StartsUnit, spelled, trim-number, split-spelled,
}
use vitals.Units.{size_units, duration_units, split_unit, parse_scaled, parse_size, parse_duration}

size_units-StartsUnit : All (λ u. StartsUnit (codes u.0)) size_units
unfolding is_whitespace
size_units-StartsUnit = (refl, (refl, (refl, (refl, (refl, (refl, (refl, tt)))))))

duration_units-StartsUnit : All (λ u. StartsUnit (codes u.0)) duration_units
unfolding is_whitespace
duration_units-StartsUnit = (refl, (refl, (refl, (refl, tt))))

size_name-IsUnit : (u : SizeUnit) → IsUnit (size_name u)
unfolding is_whitespace
size_name-IsUnit no_unit = inl refl
size_name-IsUnit byte = inr refl
size_name-IsUnit kilo = inr refl
size_name-IsUnit kilobyte = inr refl
size_name-IsUnit mega = inr refl
size_name-IsUnit megabyte = inr refl
size_name-IsUnit giga = inr refl
size_name-IsUnit gigabyte = inr refl

split-size_name : (u : SizeUnit) → split_unit size_units 1 (size_name u) ≡ ([], size_in_bytes u)
unfolding split_unit
split-size_name no_unit = refl
split-size_name byte = refl
split-size_name kilo = refl
split-size_name kilobyte = refl
split-size_name mega = refl
split-size_name megabyte = refl
split-size_name giga = refl
split-size_name gigabyte = refl

time_name-IsUnit : (u : TimeUnit) → IsUnit (time_name u)
unfolding is_whitespace
time_name-IsUnit no_time = inl refl
time_name-IsUnit millisecond = inr refl
time_name-IsUnit second = inr refl
time_name-IsUnit minute = inr refl
time_name-IsUnit hour = inr refl

split-time_name : (u : TimeUnit) → split_unit duration_units 1000 (time_name u) ≡ ([], time_in_ms u)
unfolding split_unit
split-time_name no_time = refl
split-time_name millisecond = refl
split-time_name second = refl
split-time_name minute = refl
split-time_name hour = refl

module _ {ℓ} {W : Type ℓ} (f : Float W) where
  -- What a number in a unit comes to: nothing if it does not parse or is negative.
  abbrev pub in_unit : Text → ℕ → Option ℕ
  in_unit number k = do
    v ← f.parse number
    if f.lt v (of_nat f 0) then none else some (f.to_u64 (f.mul v (of_nat f k)))

  parse_scaled-number :
      (s : Spelling) (gap : Text) (k : ℕ)
      → IsSpelling s
      → All IsSpace gap
      → parse_scaled f (s.number ++ gap, k) ≡ in_unit s.number k
  unfolding parse_scaled
  parse_scaled-number s gap k w all = rw (trim-number s w gap all) refl

  -- A number with its unit, with any white space around it and between the two, is read as the
  -- number in that unit, as a `u64`: bytes of a size by powers of 1024, and a duration in
  -- nanoseconds; without a unit a size is in bytes and a duration in seconds. A number that does
  -- not parse, or is negative, is refused.
  pub parse-spelled :
      (s : Spelling) (size : SizeUnit) (time : TimeUnit)
      → IsSpelling s
      → (parse_size f (spelled s (size_name size)) ≡ in_unit s.number (size_in_bytes size))
        × (parse_duration f (spelled s (time_name time))
            ≡ option_map (λ ms. ms * 10 ^ 6) (in_unit s.number (time_in_ms time)))
  unfolding parse_size parse_duration
  parse-spelled s size time w =
      let (gap, all, is) =
        split-spelled s w size_units 1 (size_in_bytes size) (size_name size) size_units-StartsUnit
          (size_name-IsUnit size) (split-size_name size) in
      let (gap', all', is') =
        split-spelled s w duration_units 1000 (time_in_ms time) (time_name time)
          duration_units-StartsUnit (time_name-IsUnit time) (split-time_name time) in
      (
        ap (parse_scaled f) is ∙ parse_scaled-number s gap (size_in_bytes size) w all,
        ap (λ x. option_map (λ ms. ms * 10 ^ 6) (parse_scaled f x)) is'
            ∙ ap (option_map (λ ms. ms * 10 ^ 6))
                (parse_scaled-number s gap' (time_in_ms time) w all'),
      )
