-- ===== src/Units.antt =====
-- src/units.rs: the system constants and the parsing and printing of quantities. A `Duration` is its
-- number of nanoseconds.
pub mod Auxv
pub mod Feeds
pub mod Spelled
pub mod Quantities
mod Tests
use Prim.Native.String.{String}
use vitals.Float.{Float, of_nat}
use vitals.Prelude.{
  ℕ, zero, suc, ◌+◌, ◌*◌, ◌^◌, max, Bool, false, ◌||◌, map, Option, none, some, List, [], ◌∷◌, ◌++◌,
  if◌then◌else◌, ◌==◌, ltb, ◌>>=◌, option_map, length, take, drop, filter, unwrap_or,
}
use vitals.Text.{Text, codes, is_digit, trim, strip_prefix, strip_suffix, lines}
use vitals.Text.Number.{display}

abbrev pub at_null : ℕ
at_null = 0

abbrev pub at_pagesz : ℕ
at_pagesz = 6

abbrev pub at_clktck : ℕ
at_clktck = 17

pub record SysConst : Type 0 where
  pub clk_tck : ℕ
  pub page_size : ℕ
  pub ncpu : ℕ

-- `u64::from_ne_bytes` on a little-endian machine.
abbrev pub from_ne_bytes : List ℕ → ℕ
from_ne_bytes [] = 0
from_ne_bytes (b ∷ bs) = b + 256 * from_ne_bytes bs

-- The loop over `chunks_exact(16)`, with fuel for one round to each chunk.
unfoldable pub parse_auxv_from : ℕ → List ℕ → Option ℕ × Option ℕ → Option ℕ × Option ℕ
parse_auxv_from zero bytes out = out
parse_auxv_from (suc fuel) bytes (clk, page) =
    let k = from_ne_bytes (take 8 bytes) in
    let v = from_ne_bytes (take 8 (drop 8 bytes)) in
    let rest = drop 16 bytes in
    let out' : Option ℕ × Option ℕ =
      if k == at_clktck
      then (some v, page)
      else if k == at_pagesz
      then (clk, some v)
      else (clk, page) in
    let later = parse_auxv_from fuel rest out' in
    if ltb (length bytes) 16 || k == at_null then (clk, page) else later

unfoldable pub parse_auxv : List ℕ → Option ℕ × Option ℕ
unfolding parse_auxv_from
parse_auxv bytes = parse_auxv_from (length bytes) bytes (none, none)

-- The test of a line `cpuN`.
abbrev is_cpu_line : Text → Bool
is_cpu_line l = elim (strip_prefix (codes "cpu") l) [ some (c ∷ s) ↦ is_digit c | _ ↦ false ]

unfoldable pub count_cpus : Text → ℕ
unfolding lines strip_prefix
count_cpus proc_stat = max (length (filter is_cpu_line (lines proc_stat))) 1

abbrev positive_or : Option ℕ → ℕ → ℕ
positive_or none d = d
positive_or (some v) d = if ltb 0 v then v else d

-- The body of `get_or_init`, on what the two reads return. Its value is then kept for good, so the
-- code that calls `sys_const` takes a `SysConst` here.
unfoldable pub sys_const : Option (List ℕ) → Option Text → SysConst
unfolding parse_auxv count_cpus
sys_const auxv stat =
    let (clk, page) = unwrap_or (option_map parse_auxv auxv) (none, none) in
    record {
      clk_tck = positive_or clk 100;
      page_size = positive_or page 4096;
      ncpu = unwrap_or (option_map count_cpus stat) 1;
    }

-- The `if let` ladders: the first suffix that fits, with what stands before it and its factor.
unfoldable pub split_unit : List (String × ℕ) → ℕ → Text → Text × ℕ
unfolding strip_suffix
split_unit [] factor s = (s, factor)
split_unit ((suffix, k) ∷ more) factor s =
    let rest = split_unit more factor s in
    elim (strip_suffix (codes suffix) s) [ some p ↦ (p, k) | none ↦ rest ]

abbrev size_units : List (String × ℕ)
size_units =
    ("GB", 2 ^ 30)
    ∷ ("G", 2 ^ 30)
    ∷ ("MB", 2 ^ 20)
    ∷ ("M", 2 ^ 20)
    ∷ ("KB", 2 ^ 10)
    ∷ ("K", 2 ^ 10)
    ∷ ("B", 1)
    ∷ []

abbrev duration_units : List (String × ℕ)
duration_units = ("ms", 1) ∷ ("s", 1000) ∷ ("m", 60_000) ∷ ("h", 3_600_000) ∷ []

module _ {ℓ} {W : Type ℓ} (f : Float W) where
  -- The `while` of `human_bytes`; the list is `UNITS[i..]`.
  unfoldable pub scale : W → Text → List Text → W × Text
  scale v unit [] = (v, unit)
  scale v unit (next ∷ more) =
      let rest = scale (f.div v (of_nat f 1024)) next more in
      if f.le (of_nat f 1024) v then rest else (v, unit)

  unfoldable pub human_bytes : ℕ → Text
  unfolding scale
  human_bytes n =
      let (v, unit) =
        scale (of_nat f n) (codes "B") (map codes ("K" ∷ "M" ∷ "G" ∷ "T" ∷ "P" ∷ [])) in
      if ltb n 1024
      then display n ++ codes "B"
      else if f.le (of_nat f 100) v
      then f.fixed 0 v ++ unit
      else f.fixed 1 v ++ unit

  unfoldable pub human_rate : W → Text
  unfolding human_bytes
  human_rate bytes_per_sec =
      if f.lt bytes_per_sec (of_nat f 1)
      then codes "-"
      else human_bytes (f.to_u64 bytes_per_sec) ++ codes "/s"

  -- The end of both parsers: the number before the suffix, refused if it is negative.
  unfoldable pub parse_scaled : Text × ℕ → Option ℕ
  unfolding trim
  parse_scaled (num, factor) = do
    v ← f.parse (trim num)
    if f.lt v (of_nat f 0) then none else some (f.to_u64 (f.mul v (of_nat f factor)))

  unfoldable pub parse_size : Text → Option ℕ
  unfolding split_unit parse_scaled
  parse_size s = parse_scaled (split_unit size_units 1 (trim s))

  -- The result is in nanoseconds; `from_millis` takes the `u64` of milliseconds.
  unfoldable pub parse_duration : Text → Option ℕ
  unfolding split_unit parse_scaled
  parse_duration s =
      option_map (λ ms. ms * 10 ^ 6) (parse_scaled (split_unit duration_units 1000 (trim s)))
