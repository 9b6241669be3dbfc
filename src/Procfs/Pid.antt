-- ===== src/Procfs/Pid.antt =====
-- src/procfs.rs: `parse_pid_stat` and `parse_pid_io`.
pub mod Comm
pub mod Printed
use vitals.Prelude.{
  ℕ, zero, suc, ◌+◌, ◌-◌, Bool, true, false, Option, none, some, List, [], ◌∷◌, map, if◌then◌else◌,
  ltb, get_elem?, take, drop, ◌>>=◌,
}
use vitals.Procfs.{PidStat, PidIo}
use vitals.Procfs.Stat.{number_or_zero}
use vitals.Text.Number.{parse_u64, parse_signed, parse_i32, parse_i64}
use vitals.Text.{Text, codes, str_eq, trim, split_ascii_whitespace, lines, find, rfind, split_once}

abbrev first_char : Text → Option ℕ
first_char [] = none
first_char (c ∷ s) = some c

-- The record from the three slices of the line: before `(`, inside, and after `)`.
unfoldable pub pid_fields : Text → Text → Text → Option PidStat
pid_fields head comm tail =
    let rest = split_ascii_whitespace tail in
    let get = get_elem? rest in
    do
      pid ← parse_i32 (trim head)
      state ← get 0 >>= first_char
      ppid ← get 1 >>= parse_i32
      utime ← get 11 >>= parse_u64
      stime ← get 12 >>= parse_u64
      num_threads ← get 17 >>= parse_i64
      starttime ← get 19 >>= parse_u64
      vsize ← get 20 >>= parse_u64
      rss_pages ← get 21 >>= parse_i64
      some (record {
        pid = pid;
        comm = comm;
        state = state;
        ppid = ppid;
        utime = utime;
        stime = stime;
        num_threads = num_threads;
        starttime = starttime;
        vsize = vsize;
        rss_pages = rss_pages;
      })

unfoldable pub parse_pid_stat : Text → Option PidStat
parse_pid_stat s = do
  left ← find b'(' s
  right ← rfind b')' s
  if ltb right left
      then none
      else pid_fields (take left s) (take (right - (left + 1)) (drop (left + 1) s))
          (drop (right + 1) s)

-- The `match k` of `parse_pid_io`.
abbrev set_io : Text → ℕ → PidIo → PidIo
set_io k n io =
    if str_eq k (codes "rchar")
    then record io { rchar = n }
    else if str_eq k (codes "wchar")
    then record io { wchar = n }
    else if str_eq k (codes "read_bytes")
    then record io { read_bytes = n }
    else if str_eq k (codes "write_bytes")
    then record io { write_bytes = n }
    else io

unfoldable pub io_lines : List Text → PidIo → PidIo
unfolding trim split_once parse_u64
io_lines [] io = io
io_lines (line ∷ more) io = io_lines more (elim (split_once b':' line) [
  | none ↦ io
  | some (k, v) ↦ set_io (trim k) (number_or_zero (trim v)) io
])

unfoldable pub parse_pid_io : Text → PidIo
unfolding io_lines lines
parse_pid_io s =
    io_lines (lines s) (record { rchar = 0; wchar = 0; read_bytes = 0; write_bytes = 0 })
