-- ===== src/Delta/Fixtures.antt =====
-- Samples and snapshots for the tests.
use vitals.Delta.{ProcRate, Snapshot}
use vitals.Prelude.{ℕ, false, Option, none, some, List, [], ◌∷◌, pos}
use vitals.Procfs.{ProcKey, no_times, PidStat, PidIo, MemInfo}
use vitals.Sample.{Sample, ProcSample}
use vitals.Text.{codes}
use vitals.Units.{SysConst}

abbrev pub sys : SysConst
sys = record { clk_tck = 100; page_size = 4096; ncpu = 2 }

abbrev pub old_key : ProcKey
old_key = record { pid = pos 7; starttime = 100 }

-- The same pid, started later.
abbrev pub new_key : ProcKey
new_key = record { pid = pos 7; starttime = 200 }

abbrev pub shell_key : ProcKey
shell_key = record { pid = pos 9; starttime = 50 }

abbrev pub counters : ℕ → PidIo
counters n = record { rchar = n; wchar = n; read_bytes = n; write_bytes = n }

abbrev pub stat_at : ProcKey → ℕ → PidStat
stat_at key ticks = record {
  pid = key.pid;
  comm = codes "job";
  state = b'S';
  ppid = pos 1;
  utime = ticks;
  stime = 0;
  num_threads = pos 1;
  starttime = key.starttime;
  vsize = 8192;
  rss_pages = pos 2;
}

abbrev pub process_at : ProcKey → ℕ → ProcSample
process_at key ticks = record {
  stat = stat_at key ticks;
  io = some (counters ticks);
  sockets = none;
}

abbrev pub memory : MemInfo
memory = record {
  total = 1000;
  free = 100;
  available = 600;
  buffers = 0;
  cached = 0;
  swap_total = 0;
  swap_free = 0;
}

abbrev pub sample_at : ℕ → List (ProcKey × ProcSample) → Sample
sample_at at procs = record {
  at = at;
  cpu = record { total = no_times; per_cpu = []; ctxt = 0; procs_running = 1; procs_blocked = 0 };
  mem = memory;
  nets = [];
  procs = procs;
  vanished = 0;
  io_denied = 0;
  scan_time = 0;
}

abbrev pub first : Sample
first = sample_at 0 ((old_key, process_at old_key 500) ∷ (shell_key, process_at shell_key 10) ∷ [])

abbrev pub second : Sample
second =
    sample_at 1000000000
      ((new_key, process_at new_key 600) ∷ (shell_key, process_at shell_key 40) ∷ [])

-- A snapshot with this CPU share and one process.
abbrev pub row_at : ProcKey → ℕ → Option ℕ → ProcRate ℕ
row_at key cpu read = record {
  key = key;
  pid = key.pid;
  ppid = pos 1;
  comm = codes "job";
  state = b'S';
  threads = pos 1;
  cpu_pct = cpu;
  rss_bytes = 8192;
  vsize_bytes = 8192;
  read_bps = read;
  write_bps = read;
  rchar_bps = read;
  wchar_bps = read;
  sockets = none;
  is_new = false;
}

abbrev pub snapshot_at : ℕ → List (ProcRate ℕ) → Snapshot ℕ
snapshot_at cpu procs = record {
  system = record {
    cpu_pct = cpu;
    per_cpu_pct = [];
    mem = memory;
    net_rx_bps = 0;
    net_tx_bps = 0;
    net_rx_errs = 0;
    net_tx_errs = 0;
    ctxt_per_sec = 0;
    procs_running = 1;
    procs_blocked = 0;
    proc_count = 1;
    vanished = 0;
    scan_time = 0;
    interval = 1000000000;
  };
  procs = procs;
}
