-- ===== src/Delta.antt =====
-- src/delta.rs: counters into rates. `sys` is what `sys_const` returns; times are in nanoseconds.
pub mod Rates
pub mod Order
pub mod Net
pub mod Fixtures
mod Tests
use vitals.Float.{Float, of_nat, clamp, as_secs_f64}
use vitals.Prelude.{
  ℕ, zero, suc, ◌+◌, ◌-◌, Bool, true, false, not, ◌&&◌, Option, none, some, List, [], ◌∷◌, map,
  if◌then◌else◌, ◌==◌, ltb, ℤ, length, filter, is_none, lookup, add_word, sort_by, option_map,
  ◌>>=◌,
}
use vitals.Procfs.{
  ProcKey, key_eq, CpuTimes, total, busy, PidStat, rss_bytes, cpu_ticks, PidIo, MemInfo, NetDev,
}
use vitals.Sample.{Sample, ProcSample}
use vitals.Text.{Text, codes, str_eq}
use vitals.Units.{SysConst}

pub record ProcRate {ℓ} (W : Type ℓ) : Type ℓ where
  pub key : ProcKey
  pub pid : ℤ
  pub ppid : ℤ
  pub comm : Text
  pub state : ℕ
  pub threads : ℤ
  pub cpu_pct : W
  pub rss_bytes : ℕ
  pub vsize_bytes : ℕ
  pub read_bps : Option W
  pub write_bps : Option W
  pub rchar_bps : Option W
  pub wchar_bps : Option W
  pub sockets : Option ℕ
  pub is_new : Bool

pub record SystemRate {ℓ} (W : Type ℓ) : Type ℓ where
  pub cpu_pct : W
  pub per_cpu_pct : List W
  pub mem : MemInfo
  pub net_rx_bps : W
  pub net_tx_bps : W
  pub net_rx_errs : ℕ
  pub net_tx_errs : ℕ
  pub ctxt_per_sec : W
  pub procs_running : ℕ
  pub procs_blocked : ℕ
  pub proc_count : ℕ
  pub vanished : ℕ
  pub scan_time : ℕ
  pub interval : ℕ

pub record Snapshot {ℓ} (W : Type ℓ) : Type ℓ where
  pub system : SystemRate W
  pub procs : List (ProcRate W)

pub record NetSum : Type 0 where
  pub rx : ℕ
  pub tx : ℕ
  pub rx_errs : ℕ
  pub tx_errs : ℕ

-- The `fold` of `sum_net`, on `u64` sums.
unfoldable pub fold_net : NetSum → List NetDev → NetSum
fold_net a [] = a
fold_net a (n ∷ ns) =
    fold_net
      (record {
        rx = add_word a.rx n.rx_bytes;
        tx = add_word a.tx n.tx_bytes;
        rx_errs = add_word a.rx_errs n.rx_errs;
        tx_errs = add_word a.tx_errs n.tx_errs;
      })
      ns

abbrev pub is_not_loopback : NetDev → Bool
is_not_loopback n = not (str_eq n.name (codes "lo"))

unfoldable pub sum_net : List NetDev → NetSum
unfolding fold_net
sum_net nets =
    fold_net (record { rx = 0; tx = 0; rx_errs = 0; tx_errs = 0 }) (filter is_not_loopback nets)

module _ {ℓ} {W : Type ℓ} (f : Float W) where
  unfoldable pub pct : ℕ → ℕ → W
  pct busy_delta total_delta =
      if total_delta == 0
      then of_nat f 0
      else clamp f (of_nat f 0) (of_nat f 100)
          (f.mul (f.div (of_nat f busy_delta) (of_nat f total_delta)) (of_nat f 100))

  -- `saturating_sub` is `-` on ℕ.
  unfoldable pub rate : ℕ → ℕ → W → W
  rate cur prev secs =
      if f.le secs (of_nat f 0) then of_nat f 0 else f.div (of_nat f (cur - prev)) secs

  -- The `zip` over both lists of CPUs, as far as the shorter goes.
  unfoldable pub per_cpu : List CpuTimes → List CpuTimes → List W
  unfolding pct total busy
  per_cpu [] ps = []
  per_cpu (c ∷ cs) [] = []
  per_cpu (c ∷ cs) (p ∷ ps) = pct (busy c - busy p) (total c - total p) ∷ per_cpu cs ps

  -- The CPU share of one process; `hz` is the clock's frequency.
  unfoldable pub proc_cpu : W → W → Option ProcSample → ProcSample → W
  unfolding cpu_ticks
  proc_cpu hz secs none c = of_nat f 0
  proc_cpu hz secs (some p) c =
      if f.lt (of_nat f 0) secs
      then f.mul (f.div (of_nat f (cpu_ticks c.stat - cpu_ticks p.stat)) (f.mul hz secs))
          (of_nat f 100)
      else of_nat f 0

  -- One component of the `match` on both `io`s; `field` picks the counter.
  unfoldable pub io_rate : (PidIo → ℕ) → W → Option PidIo → Option PidIo → Option W
  unfolding rate
  io_rate field secs (some p) (some c) = some (rate (field c) (field p) secs)
  io_rate field secs none (some c) = some (of_nat f 0)
  io_rate field secs p none = none

  -- One round of the loop over `cur.procs`.
  unfoldable pub proc_rate :
      SysConst → W → W → List (ProcKey × ProcSample) → ProcKey × ProcSample → ProcRate W
  unfolding proc_cpu io_rate rss_bytes lookup
  proc_rate sys hz secs before (key, c) =
      let p = lookup key before in
      let before_io = p >>= (λ s. s.io) in
      record {
        key = key;
        pid = c.stat.pid;
        ppid = c.stat.ppid;
        comm = c.stat.comm;
        state = c.stat.state;
        threads = c.stat.num_threads;
        cpu_pct = proc_cpu hz secs p c;
        rss_bytes = rss_bytes sys c.stat;
        vsize_bytes = c.stat.vsize;
        read_bps = io_rate (λ io. io.read_bytes) secs before_io c.io;
        write_bps = io_rate (λ io. io.write_bytes) secs before_io c.io;
        rchar_bps = io_rate (λ io. io.rchar) secs before_io c.io;
        wchar_bps = io_rate (λ io. io.wchar) secs before_io c.io;
        sockets = c.sockets;
        is_new = is_none p;
      }

  -- `a` goes behind `b`: less CPU, or no different CPU and less memory.
  unfoldable pub goes_behind : ProcRate W → ProcRate W → Bool
  goes_behind a b =
      if f.lt a.cpu_pct b.cpu_pct
      then true
      else if f.lt b.cpu_pct a.cpu_pct
      then false
      else ltb a.rss_bytes b.rss_bytes

  unfoldable pub system_rate : Sample → Sample → W → ℕ → SystemRate W
  unfolding pct per_cpu rate sum_net total busy
  system_rate prev cur secs interval =
      let now = sum_net cur.nets in
      let before = sum_net prev.nets in
      record {
        cpu_pct =
            pct (busy cur.cpu.total - busy prev.cpu.total)
              (total cur.cpu.total - total prev.cpu.total);
        per_cpu_pct = per_cpu cur.cpu.per_cpu prev.cpu.per_cpu;
        mem = cur.mem;
        net_rx_bps = rate now.rx before.rx secs;
        net_tx_bps = rate now.tx before.tx secs;
        net_rx_errs = now.rx_errs;
        net_tx_errs = now.tx_errs;
        ctxt_per_sec = rate cur.cpu.ctxt prev.cpu.ctxt secs;
        procs_running = cur.cpu.procs_running;
        procs_blocked = cur.cpu.procs_blocked;
        proc_count = length cur.procs;
        vanished = cur.vanished;
        scan_time = cur.scan_time;
        interval = interval;
      }

  -- `diff`.
  unfoldable pub diff : SysConst → Sample → Sample → Snapshot W
  unfolding system_rate proc_rate goes_behind as_secs_f64 sort_by
  diff sys prev cur =
      let interval = cur.at - prev.at in
      let secs = as_secs_f64 f interval in
      let hz = of_nat f sys.clk_tck in
      record {
        system = system_rate prev cur secs interval;
        procs = sort_by goes_behind (map (proc_rate sys hz secs prev.procs) cur.procs);
      }
