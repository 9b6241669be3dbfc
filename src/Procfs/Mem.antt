-- ===== src/Procfs/Mem.antt =====
-- src/procfs.rs: `MemInfo::used`, `used_pct` and `parse_meminfo`.
pub mod Lines
pub mod Printed
use vitals.Float.{Float, of_nat}
use vitals.Prelude.{
  ℕ, ◌-◌, ◌&&◌, none, some, List, [], ◌∷◌, if◌then◌else◌, ltb, ◌==◌, add_word, saturating_mul,
}
use vitals.Procfs.{MemInfo}
use vitals.Procfs.Stat.{number_or_zero}
use vitals.Text.Number.{parse_u64}
use vitals.Text.{Text, codes, str_eq, trim, split_ascii_whitespace, lines, split_once}

-- `saturating_sub` is `-` on ℕ.
unfoldable pub used : MemInfo → ℕ
used m = m.total - m.available

unfoldable pub used_pct {ℓ} : {W : Type ℓ} (f : Float W) → MemInfo → W
unfolding used
used_pct f m =
    if m.total == 0
    then of_nat f 0
    else f.mul (f.div (of_nat f (used m)) (of_nat f m.total)) (of_nat f 100)

-- The `match k` of `parse_meminfo`.
abbrev set_mem : Text → ℕ → MemInfo → MemInfo
set_mem k bytes m =
    if str_eq k (codes "MemTotal")
    then record m { total = bytes }
    else if str_eq k (codes "MemFree")
    then record m { free = bytes }
    else if str_eq k (codes "MemAvailable")
    then record m { available = bytes }
    else if str_eq k (codes "Buffers")
    then record m { buffers = bytes }
    else if str_eq k (codes "Cached")
    then record m { cached = bytes }
    else if str_eq k (codes "SwapTotal")
    then record m { swap_total = bytes }
    else if str_eq k (codes "SwapFree")
    then record m { swap_free = bytes }
    else m

-- The first word of a value such as `12345 kB`, or 0.
unfoldable pub kibibytes : Text → ℕ
unfolding split_ascii_whitespace parse_u64
kibibytes v = elim (split_ascii_whitespace v) [ [] ↦ 0 | n ∷ ns ↦ number_or_zero n ]

unfoldable pub mem_lines : List Text → MemInfo → MemInfo
unfolding trim split_once kibibytes
mem_lines [] m = m
mem_lines (line ∷ more) m = mem_lines more (elim (split_once b':' line) [
  | none ↦ m
  | some (k, v) ↦ set_mem (trim k) (saturating_mul (kibibytes (trim v)) 1024) m
])

-- The fallback for a kernel with no MemAvailable.
unfoldable pub approximate : MemInfo → MemInfo
approximate m =
    if m.available == 0 && ltb 0 m.total
    then record m { available = add_word (add_word m.free m.buffers) m.cached }
    else m

abbrev pub no_mem : MemInfo
no_mem = record {
  total = 0;
  free = 0;
  available = 0;
  buffers = 0;
  cached = 0;
  swap_total = 0;
  swap_free = 0;
}

unfoldable pub parse_meminfo : Text → MemInfo
unfolding mem_lines approximate lines
parse_meminfo s = approximate (mem_lines (lines s) no_mem)
