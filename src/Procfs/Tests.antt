-- ===== src/Procfs/Tests.antt =====
-- Runs of the parsers, from tests/parsers.rs, and the properties at concrete contents.
use vitals.Prelude.{◌*◌, ◌≡◌, refl, none, some, pos, arith, ℕ, List, [], ◌∷◌, All, map}
use vitals.Procfs.Net.{socket_inode_from_link}
use vitals.Procfs.Pid.Comm.{Lacks, stat_text}
use vitals.Procfs.Pid.Printed.{Others, stat_line, IsPrintable, parse_pid_stat-stat_line}
use vitals.Procfs.Pid.{parse_pid_stat, pid_fields}
use vitals.Procfs.Net.Printed.{Row, IsRow, net_line, parse_net_dev-net_line}
use vitals.Procfs.Net.{parse_net_dev}
use vitals.Procfs.Stat.Lines as StatLines
use vitals.Procfs.Stat.Lines.{stat_file}
use vitals.Procfs.Stat.Printed.{parse_proc_stat-stat_file}
use vitals.Procfs.Stat.{parse_proc_stat}
use vitals.Procfs.Mem.Lines as MemLines
use vitals.Procfs.Mem.Lines.{mem_line}
use vitals.Procfs.Mem.Printed.{Kibibytes, mem_file, in_bytes, available_of, parse_meminfo-mem_file}
use vitals.Procfs.Mem.{parse_meminfo}
use vitals.Procfs.{StatFile}
use vitals.Text.Lines.{with_feeds}
use vitals.Text.{is_whitespace, strip_prefix}
use vitals.Procfs.{PidStat, CpuTimes, total}
use vitals.Text.Number.{parse_signed, parse_u64}
use vitals.Text.{Text, codes, split_ascii_whitespace, trim}

abbrev head : Text
head = codes "7 "

-- The name `a) (b` holds both parentheses.
abbrev odd_comm : Text
odd_comm = codes "a) (b"

abbrev tail : Text
tail = codes " S 1 1 1 0 -1 4194304 1 0 0 0 12 34 0 0 20 0 3 0 2302 2916352 367 0 0"

abbrev odd_stat : PidStat
odd_stat = record {
  pid = pos 7;
  comm = odd_comm;
  state = b'S';
  ppid = pos 1;
  utime = 12;
  stime = 34;
  num_threads = pos 3;
  starttime = 2302;
  vsize = 2916352;
  rss_pages = pos 367;
}

parsed : parse_pid_stat (stat_text head odd_comm tail) ≡ some odd_stat
unfolding parse_pid_stat vitals.Text.find vitals.Text.rfind pid_fields parse_signed trim
    split_ascii_whitespace parse_u64
parsed = refl

truncated_line : parse_pid_stat (codes "12 (ok) S 1 2 3") ≡ none
unfolding parse_pid_stat vitals.Text.find vitals.Text.rfind pid_fields parse_signed trim
    split_ascii_whitespace parse_u64
truncated_line = refl

no_parens : parse_pid_stat (codes "no parens here") ≡ none
unfolding parse_pid_stat vitals.Text.find vitals.Text.rfind
no_parens = refl

socket : socket_inode_from_link (codes "socket:[12345]") ≡ some 12345
unfolding socket_inode_from_link parse_u64 vitals.Text.strip_prefix vitals.Text.strip_suffix
socket = refl

head-Lacks : Lacks b'(' head
head-Lacks = omega arith

tail-Lacks : Lacks b')' tail
tail-Lacks = omega arith

abbrev guest_times : CpuTimes
guest_times = record {
  user = 100;
  nice = 5;
  system = 30;
  idle = 1000;
  iowait = 5;
  irq = 1;
  softirq = 8;
  steal = 12;
  guest = 40;
  guest_nice = 10;
}

total_excludes_guest : total guest_times ≡ 1161
unfolding total
total_excludes_guest = refl

-- The fields that the program does not read, as they were for some process.
abbrev others : Others
others = record {
  pgrp = codes "1";
  session = codes "1";
  tty_nr = codes "0";
  tpgid = codes "-1";
  flags = codes "4194304";
  minflt = codes "1";
  cminflt = codes "0";
  majflt = codes "0";
  cmajflt = codes "0";
  cutime = codes "0";
  cstime = codes "0";
  priority = codes "20";
  nice = codes "0";
  itrealvalue = codes "0";
  later = codes "18446744073709551615" ∷ [];
}

odd_stat-IsPrintable : IsPrintable odd_stat others
odd_stat-IsPrintable = record {
  pid = omega arith;
  ppid = omega arith;
  utime = omega arith;
  stime = omega arith;
  num_threads = omega arith;
  starttime = omega arith;
  vsize = omega arith;
  rss_pages = omega arith;
  state = ground arith;
  others = ground arith;
}

parse_pid_stat-stat_line_example : parse_pid_stat (stat_line odd_stat others) ≡ some odd_stat
parse_pid_stat-stat_line_example = parse_pid_stat-stat_line odd_stat others odd_stat-IsPrintable

-- Interfaces, one with its counters right behind the colon.
abbrev loopback : Row
loopback = record {
  dev = record {
    name = codes "lo";
    rx_bytes = 40;
    rx_packets = 1;
    rx_errs = 0;
    rx_drop = 0;
    tx_bytes = 40;
    tx_packets = 1;
    tx_errs = 0;
    tx_drop = 0;
  };
  rx_fifo = 0;
  rx_frame = 0;
  rx_compressed = 0;
  rx_multicast = 0;
  tx_fifo = 0;
  tx_colls = 0;
  tx_carrier = 0;
  tx_compressed = 0;
  pad = 4;
  first_gap = 0;
  gap = λ i. i;
}

loopback-IsRow : IsRow loopback
unfolding is_whitespace
loopback-IsRow = record { name = ground arith; counts = omega arith }

parse_net_dev-net_line_example :
    parse_net_dev (with_feeds (codes "Inter-" ∷ codes " face" ∷ net_line loopback ∷ []))
    ≡ loopback.dev ∷ []
parse_net_dev-net_line_example =
    parse_net_dev-net_line (codes "Inter-") (codes " face") (loopback ∷ []) (ground arith)
      (ground arith) (loopback-IsRow, tt)

abbrev some_times : CpuTimes
some_times = record {
  user = 100;
  nice = 2;
  system = 30;
  idle = 1000;
  iowait = 5;
  irq = 1;
  softirq = 2;
  steal = 0;
  guest = 0;
  guest_nice = 0;
}

abbrev stat_contents : StatFile
stat_contents = record {
  total = some_times;
  per_cpu = some_times ∷ [];
  ctxt = 900;
  procs_running = 1;
  procs_blocked = 0;
}

abbrev interrupts : List Text
interrupts = codes "intr 17 0 9" ∷ []

interrupts-IsOther : All StatLines.IsOther interrupts
unfolding strip_prefix
interrupts-IsOther = ((refl, refl, refl, refl, ground arith), tt)

parse_proc_stat-stat_file_example :
    parse_proc_stat (with_feeds (stat_file (λ i. i) stat_contents interrupts [] [])) ≡ stat_contents
parse_proc_stat-stat_file_example =
    parse_proc_stat-stat_file (λ i. i) stat_contents interrupts [] []
      (record {
        total = omega arith;
        per_cpu = (omega arith, tt);
        ctxt = omega arith;
        running = omega arith;
        blocked = omega arith;
      })
      interrupts-IsOther tt tt

-- An old kernel, without `MemAvailable`.
abbrev kibibytes_read : Kibibytes
kibibytes_read = record {
  total = 1000;
  free = 100;
  available = some 700;
  buffers = 20;
  cached = 300;
  swap_total = 50;
  swap_free = 50;
}

abbrev active_line : List (Text × ℕ)
active_line = (codes "Active", 70) ∷ []

active_line-IsOther : All MemLines.IsOther active_line
unfolding is_whitespace
active_line-IsOther =
    (((ground arith, omega arith), (refl, (refl, (refl, (refl, (refl, (refl, (refl, tt)))))))), tt)

parse_meminfo-mem_file_example :
    parse_meminfo (with_feeds (map (mem_line (λ i. i)) (mem_file kibibytes_read active_line [])))
    ≡ record (in_bytes kibibytes_read) { available = available_of kibibytes_read }
parse_meminfo-mem_file_example =
    parse_meminfo-mem_file (λ i. i) kibibytes_read active_line [] (omega arith) active_line-IsOther
      tt

-- The same file, and that of a kernel that does not print `MemAvailable`.
printed_available : available_of kibibytes_read ≡ 700 * 1024
printed_available = refl

old_kernel : available_of (record kibibytes_read { available = none }) ≡ 420 * 1024
old_kernel = refl
