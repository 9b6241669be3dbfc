-- ===== src/Procfs/Stat.antt =====
-- src/procfs.rs: `parse_cpu_line` and `parse_proc_stat`.
pub mod Lines
pub mod Printed
use vitals.Prelude.{ℕ, none, some, List, [], ◌∷◌, ◌++◌, map, if◌then◌else◌, unwrap_or, get_or}
use vitals.Procfs.{CpuTimes, no_times, StatFile}
use vitals.Text.Number.{parse_u64}
use vitals.Text.{
  Text, codes, is_digit, is_ascii_whitespace, trim, trim_start_matches, strip_prefix,
  split_ascii_whitespace, lines,
}

-- `parse().unwrap_or(0)`.
abbrev pub number_or_zero : Text → ℕ
number_or_zero s = unwrap_or (parse_u64 s) 0

unfoldable pub parse_cpu_line : Text → CpuTimes
unfolding parse_u64 split_ascii_whitespace
parse_cpu_line rest =
    let it = map number_or_zero (split_ascii_whitespace rest) in
    record {
      user = get_or it 0 0;
      nice = get_or it 1 0;
      system = get_or it 2 0;
      idle = get_or it 3 0;
      iowait = get_or it 4 0;
      irq = get_or it 5 0;
      softirq = get_or it 6 0;
      steal = get_or it 7 0;
      guest = get_or it 8 0;
      guest_nice = get_or it 9 0;
    }

-- A line that begins with `cpu`, on what follows.
unfoldable pub cpu_line : Text → StatFile → StatFile
unfolding parse_cpu_line trim_start_matches
cpu_line [] out = out
cpu_line (c ∷ s) out =
    if is_ascii_whitespace c
    then record out { total = parse_cpu_line (c ∷ s) }
    else if is_digit c
    then record out {
      per_cpu = out.per_cpu ++ (parse_cpu_line (trim_start_matches is_digit (c ∷ s)) ∷ []);
    }
    else out

-- The body of the loop: the first prefix that fits says what the line is.
unfoldable pub stat_line : Text → StatFile → StatFile
unfolding cpu_line strip_prefix parse_u64 trim
stat_line line out = elim (strip_prefix (codes "cpu") line) [
  | some rest ↦ cpu_line rest out
  | none ↦ elim (strip_prefix (codes "ctxt ") line) [
    | some v ↦ record out { ctxt = number_or_zero (trim v) }
    | none ↦ elim (strip_prefix (codes "procs_running ") line) [
      | some v ↦ record out { procs_running = number_or_zero (trim v) }
      | none ↦ elim (strip_prefix (codes "procs_blocked ") line) [
        | some v ↦ record out { procs_blocked = number_or_zero (trim v) }
        | none ↦ out
      ]
    ]
  ]
]

unfoldable pub stat_lines : List Text → StatFile → StatFile
unfolding stat_line
stat_lines [] out = out
stat_lines (line ∷ more) out = stat_lines more (stat_line line out)

abbrev pub no_stat : StatFile
no_stat = record { total = no_times; per_cpu = []; ctxt = 0; procs_running = 0; procs_blocked = 0 }

unfoldable pub parse_proc_stat : Text → StatFile
unfolding stat_lines lines
parse_proc_stat s = stat_lines (lines s) no_stat
