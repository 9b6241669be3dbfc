-- ===== src/Sample/Keys.antt =====
-- About the table of a sample: its keys, and the files that its processes come from.
use vitals.Prelude.{
  ℕ, ◌≡◌, refl, subst, Option, none, some, List, [], ◌∷◌, ℤ, All, Unique, insert-Unique, insert-All,
  ok, err, arith, try-eq-ok,
}
use vitals.Procfs.Pid.{parse_pid_stat, parse_pid_io}
use vitals.Procfs.{ProcKey, key_eq, PidStat, PidIo, key}
use vitals.Sample.{
  Sample, Fs, Collector, Io, ProcSample, Scan, read_pid, read_io, add_process, vanish, scan_pid,
  scan_pids, list_pids, collect,
}
use vitals.Text.{Text, codes}

-- The counters of a process whose file `io` is read, and none if it is not.
abbrev pub io_of : Io Text → Option PidIo
io_of (ok s) = some (parse_pid_io s)
io_of (err e) = none

-- A process of the table is the one that its key names, by pid and start time, and it is made of the files
-- of one process.
pub record IsRead (fs : Fs) (entry : ProcKey × ProcSample) : Type 0 where
  pub pid : entry.0.pid ≡ entry.1.stat.pid
  pub starttime : entry.0.starttime ≡ entry.1.stat.starttime
  pub of : ℤ
  pub text : Text
  pub file : fs.read_pid_file of (codes "stat") ≡ ok text
  pub stat : parse_pid_stat text ≡ some entry.1.stat
  pub io : entry.1.io ≡ io_of (fs.read_pid_file of (codes "io"))

abbrev pub IsTable : Fs → List (ProcKey × ProcSample) → Type 0
IsTable fs procs = Unique procs × All (IsRead fs) procs

abbrev ScanIsTable : Fs → Io Scan → Type 0
ScanIsTable fs (ok scan) = IsTable fs scan.procs
ScanIsTable fs (err e) = Unit

abbrev SampleIsTable : Fs → Io Sample → Type 0
SampleIsTable fs (ok s) = IsTable fs s.procs
SampleIsTable fs (err e) = Unit

read_pid-some : (r : Io Text) (s : Text) → read_pid r ≡ ok (some s) → r ≡ ok s
unfolding read_pid
read_pid-some (ok t) s h = ground arith
read_pid-some (err e) s h = ground arith

module _ (fs : Fs) (c : Collector) where
  add_process-IsTable :
      (pid : ℤ) (text : Text) (stat : Option PidStat) (scan : Scan)
      → fs.read_pid_file pid (codes "stat") ≡ ok text
      → parse_pid_stat text ≡ stat
      → IsTable fs scan.procs
      → IsTable fs (add_process fs c pid stat scan).procs
  unfolding add_process
  add_process-IsTable pid text none scan file parsed u = u
  add_process-IsTable pid text (some stat) scan file parsed u = (
    insert-Unique (key stat) _ scan.procs u.0,
    insert-All (IsRead fs) (key stat) _ scan.procs
        (record {
          pid = refl;
          starttime = refl;
          of = pid;
          text = text;
          file = file;
          stat = parsed;
          io = read_io-io_of (fs.read_pid_file pid (codes "io"));
        })
        u.1,
  )
    where
      read_io-io_of : (r : Io Text) → read_io r ≡ io_of r
      read_io-io_of (ok s) = refl
      read_io-io_of (err e) = refl

  scan_pid-IsTable :
      (pid : ℤ) (scan : Scan) {scan' : Scan}
      → scan_pid fs c pid scan ≡ ok scan'
      → IsTable fs scan.procs
      → IsTable fs scan'.procs
  unfolding scan_pid
  scan_pid-IsTable pid scan {scan'} h u =
      let (t, r, e) = try-eq-ok (read_pid (fs.read_pid_file pid (codes "stat"))) _ h in go t r e
    where
      go :
          (t : Option Text)
          → read_pid (fs.read_pid_file pid (codes "stat")) ≡ ok t
          → ◌≡◌ {A = Io Scan}
              (ok (elim t [
                | none ↦ vanish scan
                | some s ↦ add_process fs c pid (parse_pid_stat s) scan
              ]))
              (ok scan')
          → IsTable fs scan'.procs
      go none r e = subst (ScanIsTable fs) e u
      go (some s) r e = subst (ScanIsTable fs) e (
          add_process-IsTable pid s (parse_pid_stat s) scan
            (read_pid-some (fs.read_pid_file pid (codes "stat")) s r) refl u)

  scan_pids-IsTable :
      (pids : List ℤ) (scan : Scan) {scan' : Scan}
      → scan_pids fs c pids scan ≡ ok scan'
      → IsTable fs scan.procs
      → IsTable fs scan'.procs
  unfolding scan_pids
  scan_pids-IsTable [] scan h u = subst (ScanIsTable fs) h u
  scan_pids-IsTable (pid ∷ pids) scan h u =
      let (scan₁, h₁, h₂) = try-eq-ok (scan_pid fs c pid scan) (scan_pids fs c pids) h in
      scan_pids-IsTable pids scan₁ h₂ (scan_pid-IsTable pid scan h₁ u)

  -- Whatever the reads of a scan return: in the table of a sample that `collect` returns, no key
  -- stands twice, each key is the pid and the start time of the process that stands under it, and
  -- each process is what the `stat` file of one pid parses to, with the counters of its `io` file
  -- if that is read.
  pub collect-IsTable :
      (at elapsed : ℕ) {s : Sample} → collect fs c at elapsed ≡ ok s → IsTable fs s.procs
  unfolding collect
  collect-IsTable at elapsed h =
      let (stat, _, h₁) = try-eq-ok (fs.read_root (codes "stat")) _ h in
      let (meminfo, _, h₂) = try-eq-ok (fs.read_root (codes "meminfo")) _ h₁ in
      let (pids, _, h₃) = try-eq-ok (list_pids fs.read_dir) _ h₂ in
      let (scan, found, h₄) =
        try-eq-ok (scan_pids fs c pids (record { procs = []; vanished = 0; io_denied = 0 })) _ h₃ in
      subst (SampleIsTable fs) h₄
        (scan_pids-IsTable pids (record { procs = []; vanished = 0; io_denied = 0 }) found (tt, tt))
