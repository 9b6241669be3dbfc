-- ===== src/Sample.antt =====
-- src/sample.rs: one scan of /proc. The file system is a parameter: `Fs` is what the reads of one
-- scan return, each file being read at most once in a scan.
pub mod Vanishing
pub mod Keys
mod Tests
use vitals.Prelude.{
  ℕ, zero, suc, ◌+◌, ◌-◌, ◌%◌, ◌^◌, Bool, true, false, Option, none, some, List, [], ◌∷◌,
  if◌then◌else◌, ◌==◌, ℤ, Result, ok, err, insert, to_list, filter_map, length, ◌++◌, option_eq,
}
use vitals.Prelude.{try as ◌>>=◌}
use vitals.Procfs.{ProcKey, key_eq, key, StatFile, MemInfo, NetDev, PidStat, PidIo}
use vitals.Procfs.Mem.{parse_meminfo}
use vitals.Procfs.Net.{parse_net_dev, socket_inode_from_link}
use vitals.Procfs.Pid.{parse_pid_stat, parse_pid_io}
use vitals.Procfs.Stat.{parse_proc_stat}
use vitals.Text.Number.{parse_signed, parse_i32}
use vitals.Text.{Text, codes}

pub record ProcSample : Type 0 where
  pub stat : PidStat
  pub io : Option PidIo
  pub sockets : Option ℕ

-- `at` and `scan_time` are in nanoseconds.
pub record Sample : Type 0 where
  pub at : ℕ
  pub cpu : StatFile
  pub mem : MemInfo
  pub nets : List NetDev
  pub procs : List (ProcKey × ProcSample)
  pub vanished : ℕ
  pub io_denied : ℕ
  pub scan_time : ℕ

-- `io::Error`: its kind, and the number of the operating system.
pub data ErrorKind : Type 0 where
  not_found permission_denied other : ErrorKind

pub record IoError : Type 0 where
  pub kind : ErrorKind
  pub raw_os_error : Option ℕ
  pub message : Text

abbrev pub Io : Type 0 → Type 0
Io A = Result IoError A

-- What the reads of one scan return. A name or link target that is no UTF-8 is `none`.
pub record Fs : Type 0 where
  pub read_root : Text → Io Text
  pub read_dir : Io (List (Io (Option Text)))
  pub read_pid_file : ℤ → Text → Io Text
  pub read_fds : ℤ → Io (List (Io (Io (Option Text))))

pub record Collector : Type 0 where
  pub root : Text
  pub with_sockets : Bool

-- `Collector::new`.
unfoldable pub new : Text → Collector
new root = record { root = root; with_sockets = false }

abbrev is_esrch : Option ℕ → Bool
is_esrch none = false
is_esrch (some n) = n == 3

-- `read_pid`: `none` is a process that exited.
unfoldable pub read_pid : Io Text → Io (Option Text)
read_pid (ok s) = ok (some s)
read_pid (err e) = elim e.kind [
  | not_found ↦ ok none
  | _ ↦ if is_esrch e.raw_os_error then ok none else err e
]

abbrev parsed_pid : Io (Option Text) → Option ℤ
parsed_pid (ok (some name)) = parse_i32 name
parsed_pid _ = none

-- `list_pids`, on what `read_dir` returns.
unfoldable pub list_pids : Io (List (Io (Option Text))) → Io (List ℤ)
unfolding parse_signed
list_pids (ok entries) = ok (filter_map parsed_pid entries)
list_pids (err e) = err e

-- An entry of `fd` whose link names a socket.
abbrev socket_link : Io (Io (Option Text)) → Option ℕ
socket_link (ok (ok (some target))) = socket_inode_from_link target
socket_link _ = none

-- `count_sockets`, on what `read_dir` and `read_link` return.
unfoldable pub count_sockets : Io (List (Io (Io (Option Text)))) → Option ℕ
unfolding socket_inode_from_link
count_sockets (ok entries) = some (length (filter_map socket_link entries))
count_sockets (err e) = none

-- The variables of the loop in `collect`; the counters are `u32`.
pub record Scan : Type 0 where
  pub procs : List (ProcKey × ProcSample)
  pub vanished : ℕ
  pub io_denied : ℕ

abbrev is_denied : Io Text → Bool
is_denied (ok s) = false
is_denied (err e) = elim e.kind [ permission_denied ↦ true | _ ↦ false ]

abbrev pub read_io : Io Text → Option PidIo
read_io (ok s) = some (parse_pid_io s)
read_io (err e) = none

-- One round on a process whose `stat` was read.
unfoldable pub add_process : Fs → Collector → ℤ → Option PidStat → Scan → Scan
unfolding parse_pid_io count_sockets
add_process fs c pid none scan = scan
add_process fs c pid (some stat) scan =
    let io = fs.read_pid_file pid (codes "io") in
    let sockets = if c.with_sockets then count_sockets (fs.read_fds pid) else none in
    record scan {
      procs =
          insert (key stat) (record { stat = stat; io = read_io io; sockets = sockets }) scan.procs;
      io_denied = if is_denied io then (scan.io_denied + 1) % 2 ^ 32 else scan.io_denied;
    }

abbrev pub vanish : Scan → Scan
vanish scan = record scan { vanished = (scan.vanished + 1) % 2 ^ 32 }

-- The body of the loop.
unfoldable pub scan_pid : Fs → Collector → ℤ → Scan → Io Scan
unfolding read_pid add_process parse_pid_stat
scan_pid fs c pid scan = do
  stat_txt ← read_pid (fs.read_pid_file pid (codes "stat"))
  ok (elim stat_txt [ none ↦ vanish scan | some s ↦ add_process fs c pid (parse_pid_stat s) scan ])

unfoldable pub scan_pids : Fs → Collector → List ℤ → Scan → Io Scan
unfolding scan_pid
scan_pids fs c [] scan = ok scan
scan_pids fs c (pid ∷ pids) scan = do scan' ← scan_pid fs c pid scan; scan_pids fs c pids scan'

abbrev nets_or_default : Io Text → List NetDev
nets_or_default (ok s) = parse_net_dev s
nets_or_default (err e) = []

-- `Collector::collect`; `at` and `elapsed` are what the clock says.
unfoldable pub collect : Fs → Collector → ℕ → ℕ → Io Sample
unfolding parse_proc_stat parse_meminfo parse_net_dev list_pids scan_pids
collect fs c at elapsed = do
  stat ← fs.read_root (codes "stat")
  meminfo ← fs.read_root (codes "meminfo")
  pids ← list_pids fs.read_dir
  scan ← scan_pids fs c pids (record { procs = []; vanished = 0; io_denied = 0 })
  ok (record {
    at = at;
    cpu = parse_proc_stat stat;
    mem = parse_meminfo meminfo;
    nets = nets_or_default (fs.read_root (codes "net/dev"));
    procs = scan.procs;
    vanished = scan.vanished;
    io_denied = scan.io_denied;
    scan_time = elapsed;
  })
