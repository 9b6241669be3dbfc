-- ===== src/Sample/Tests.antt =====
-- A scan in which one process is gone, and one is there but does not let us read its `io`.
use vitals.Prelude.{
  ℕ, ◌%◌, ◌^◌, ◌≡◌, refl, true, Option, some, [], ◌∷◌, ℤ, pos, ok, err, Unique, int_beq,
  if◌then◌else◌,
}
use vitals.Procfs.{key_eq}
use vitals.Sample.Keys.{IsTable, collect-IsTable}
use vitals.Sample.Vanishing.{Readable, gone_count, collect-ok}
use vitals.Sample.{
  Sample, ErrorKind, not_found, permission_denied, other, IoError, Io, Fs, Collector, list_pids,
  collect,
}
use vitals.Text.{Text, codes, str_eq}

abbrev failure : ErrorKind → Option ℕ → IoError
failure kind n = record { kind = kind; raw_os_error = n; message = codes "error" }

abbrev stat_line : Text
stat_line = codes "7 (job) S 1 1 1 0 -1 0 1 0 0 0 12 34 0 0 20 0 3 0 2302 8192 2 0"

-- Process 7 is there and 8 is gone; the directory has another entry.
abbrev pid_file : ℤ → Text → Io Text
pid_file pid name =
    if int_beq pid (pos 7)
    then if str_eq name (codes "stat")
      then ok stat_line
      else err (failure permission_denied (some 13))
    else err (failure other (some 3))

abbrev fs : Fs
fs = record {
  read_root =
      λ name. if str_eq name (codes "net/dev") then err (failure not_found (some 2)) else ok [];
  read_dir = ok (ok (some (codes "7")) ∷ ok (some (codes "8")) ∷ ok (some (codes "self")) ∷ []);
  read_pid_file = pid_file;
  read_fds = λ pid. ok [];
}

abbrev collector : Collector
collector = record { root = codes "/proc"; with_sockets = true }

listed : list_pids fs.read_dir ≡ ok (pos 7 ∷ pos 8 ∷ [])
unfolding list_pids vitals.Text.Number.parse_signed vitals.Text.Number.parse_u64
listed = refl

collect-ok_example :
    (s : Sample) × (collect fs collector 5 1 ≡ ok s)
    × Unique s.procs
    × (s.vanished ≡ gone_count fs collector (pos 7 ∷ pos 8 ∷ []) % 2 ^ 32)
collect-ok_example =
    collect-ok fs collector 5 1 {stat = []} {meminfo = []} refl refl listed
      (Readable.read stat_line, (Readable.gone (failure other (some 3)) refl, tt))

scan_result : (s : Sample) × (collect fs collector 5 1 ≡ ok s)
scan_result =
    let (s, h, _, _) =
      collect-ok fs collector 5 1 {stat = []} {meminfo = []} refl refl listed
        (Readable.read stat_line, (Readable.gone (failure other (some 3)) refl, tt)) in
    (s, h)

collect-IsTable_example : IsTable fs scan_result.0.procs
collect-IsTable_example = collect-IsTable fs collector 5 1 scan_result.1
