-- ===== src/Procfs.antt =====
-- src/procfs.rs: the contents of the /proc files, with their methods. `u64` sums keep their
-- wrap-around; a `char` is its code point.
pub mod Stat
pub mod Pid
pub mod Mem
pub mod Net
pub mod Counters
mod Tests
use vitals.Prelude.{
  ℕ, zero, ◌+◌, ◌-◌, ◌*◌, ◌≡◌, Bool, true, false, ◌&&◌, List, [], if◌then◌else◌, ◌==◌, ltb, ℤ, pos,
  negsuc, ltb_ℤ, pos_part, int_beq, int_beq_iff, Eq, add_word, sub_word, mul_word, ◌↔◌, arith,
  ==_iff,
}
use vitals.Text.{Text}
use vitals.Units.{SysConst}

pub record CpuTimes : Type 0 where
  pub user : ℕ
  pub nice : ℕ
  pub system : ℕ
  pub idle : ℕ
  pub iowait : ℕ
  pub irq : ℕ
  pub softirq : ℕ
  pub steal : ℕ
  pub guest : ℕ
  pub guest_nice : ℕ

-- `CpuTimes::total`, associated to the left as `+` is.
unfoldable pub total : CpuTimes → ℕ
total c =
    let a = add_word (add_word (add_word c.user c.nice) c.system) c.idle in
    add_word (add_word (add_word (add_word a c.iowait) c.irq) c.softirq) c.steal

-- `CpuTimes::busy`.
unfoldable pub busy : CpuTimes → ℕ
unfolding total
busy c = sub_word (sub_word (total c) c.idle) c.iowait

abbrev pub no_times : CpuTimes
no_times = record {
  user = 0;
  nice = 0;
  system = 0;
  idle = 0;
  iowait = 0;
  irq = 0;
  softirq = 0;
  steal = 0;
  guest = 0;
  guest_nice = 0;
}

pub record StatFile : Type 0 where
  pub total : CpuTimes
  pub per_cpu : List CpuTimes
  pub ctxt : ℕ
  pub procs_running : ℕ
  pub procs_blocked : ℕ

pub record ProcKey : Type 0 where
  pub pid : ℤ
  pub starttime : ℕ

abbrev pub key_beq : ProcKey → ProcKey → Bool
key_beq a b = int_beq a.pid b.pid && a.starttime == b.starttime

pub key_beq_iff : (a b : ProcKey) → (key_beq a b ≡ true) ↔ (a ≡ b)
key_beq_iff a b = ground (arith, int_beq_iff a.pid b.pid)

instance abbrev pub key_eq : Eq ProcKey
key_eq = record { beq = key_beq; beq_iff = key_beq_iff }

pub record PidStat : Type 0 where
  pub pid : ℤ
  pub comm : Text
  pub state : ℕ
  pub ppid : ℤ
  pub utime : ℕ
  pub stime : ℕ
  pub num_threads : ℤ
  pub starttime : ℕ
  pub vsize : ℕ
  pub rss_pages : ℤ

-- `PidStat::key`.
abbrev pub key : PidStat → ProcKey
key s = record { pid = s.pid; starttime = s.starttime }

-- `PidStat::rss_bytes`; `c` is what `sys_const` returns.
unfoldable pub rss_bytes : SysConst → PidStat → ℕ
rss_bytes c s = if ltb_ℤ (pos 0) s.rss_pages then mul_word (pos_part s.rss_pages) c.page_size else 0

-- `PidStat::cpu_ticks`.
unfoldable pub cpu_ticks : PidStat → ℕ
cpu_ticks s = add_word s.utime s.stime

pub record PidIo : Type 0 where
  pub rchar : ℕ
  pub wchar : ℕ
  pub read_bytes : ℕ
  pub write_bytes : ℕ

pub record MemInfo : Type 0 where
  pub total : ℕ
  pub free : ℕ
  pub available : ℕ
  pub buffers : ℕ
  pub cached : ℕ
  pub swap_total : ℕ
  pub swap_free : ℕ

pub record NetDev : Type 0 where
  pub name : Text
  pub rx_bytes : ℕ
  pub rx_packets : ℕ
  pub rx_errs : ℕ
  pub rx_drop : ℕ
  pub tx_bytes : ℕ
  pub tx_packets : ℕ
  pub tx_errs : ℕ
  pub tx_drop : ℕ
