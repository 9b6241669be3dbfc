-- ===== src/Sampler.antt =====
-- src/sampler.rs: the work of the sampler's thread. One pass of its loop is `cycle`, on the variables of
-- the thread and the shared state. A pass reads the clock: at its start, for `evaluate`, for `active`,
-- at its end, and in the sleep; what it reads is an argument.
pub mod Sleep
pub mod Cycles
pub mod Log
pub mod Thread
mod Tests
use vitals.Delta.{Snapshot, diff}
use vitals.Float.{Float}
use vitals.Prelude.{
  ℕ, ◌+◌, ◌-◌, ◌*◌, ◌/◌, ◌%◌, ◌^◌, Bool, true, false, Option, none, some, List, [], ◌∷◌, map,
  if◌then◌else◌, ltb, add_word, Result, ok, err, option_map, word, is_none, ◌==◌,
}
use vitals.Procfs.Mem.{used_pct}
use vitals.Ring.{Ring, push}
use vitals.Ring as Ring
use vitals.Ring.View.{push_all}
use vitals.Rules.Engine.{SubjectId, Engine, Event}
use vitals.Rules.Evaluate.{evaluate, active}
use vitals.Sample.{Sample, Io, IoError}
use vitals.Text.{Text}
use vitals.Units.{SysConst}

pub record HistoryPoint {ℓ} (W : Type ℓ) : Type ℓ where
  pub cpu_pct : W
  pub mem_pct : W
  pub net_rx_bps : W
  pub net_tx_bps : W
  pub proc_count : ℕ
  pub scan_micros : ℕ

pub record Shared {ℓ} (W : Type ℓ) : Type ℓ where
  pub latest : Option (Snapshot W)
  pub history : Ring (HistoryPoint W)
  pub events : Ring (Event W)
  pub active_alerts : List (Text × Text × ℕ)
  pub last_error : Option Text

-- `interval` is in nanoseconds.
pub record SamplerConfig : Type 0 where
  pub interval : ℕ
  pub history_len : ℕ
  pub event_log_len : ℕ

-- `SamplerConfig::default`.
abbrev pub default : SamplerConfig
default = record { interval = 10 ^ 9; history_len = 300; event_log_len = 200 }

-- The variables of the thread, and what it shares.
pub record Worker {ℓ} (W : Type ℓ) : Type ℓ where
  pub engine : Engine W
  pub prev : Option Sample
  pub shared : Shared W
  pub ticks : ℕ
  pub overruns : ℕ

-- What the match on the result of `collect` gives.
pub record Work {ℓ} (W : Type ℓ) : Type ℓ where
  pub engine : Engine W
  pub prev : Option Sample
  pub snapshot : Option (Snapshot W)
  pub events : List (Event W)
  pub error : Option Text

-- What a pass takes from outside: the result of `collect`, the instant of `evaluate`, the clock at
-- each state in `active`, and how long the pass took.
pub record Readings : Type 0 where
  pub result : Io Sample
  pub now : ℕ
  pub clock : SubjectId → ℕ
  pub spent : ℕ

module _ {ℓ} {W : Type ℓ} (f : Float W) where
  -- The worker that `spawn` starts.
  unfoldable pub spawn : Engine W → SamplerConfig → Worker W
  unfolding Ring.new
  spawn engine cfg = record {
    engine = engine;
    prev = none;
    shared = record {
      latest = none;
      history = Ring.new cfg.history_len;
      events = Ring.new cfg.event_log_len;
      active_alerts = [];
      last_error = none;
    };
    ticks = 0;
    overruns = 0;
  }

  -- The point of history that a snapshot leaves; the casts are to `u32` and `u64`.
  unfoldable pub point : Snapshot W → HistoryPoint W
  unfolding used_pct
  point s = record {
    cpu_pct = s.system.cpu_pct;
    mem_pct = used_pct f s.system.mem;
    net_rx_bps = s.system.net_rx_bps;
    net_tx_bps = s.system.net_tx_bps;
    proc_count = s.system.proc_count % 2 ^ 32;
    scan_micros = (s.system.scan_time / 1000) % word;
  }

  unfoldable pub work : SysConst → ℕ → Io Sample → Engine W → Option Sample → Work W
  unfolding diff evaluate
  work sys now (err e) engine prev = record {
    engine = engine;
    prev = prev;
    snapshot = none;
    events = [];
    error = some e.message;
  }
  work sys now (ok cur) engine none = record {
    engine = engine;
    prev = some cur;
    snapshot = none;
    events = [];
    error = none;
  }
  work sys now (ok cur) engine (some p) =
      let snap = diff f sys p cur in
      let (events, engine') = evaluate f engine snap now in
      record {
        engine = engine';
        prev = some cur;
        snapshot = some snap;
        events = events;
        error = none;
      }

  abbrev pub push_point : Ring (HistoryPoint W) → Option (HistoryPoint W) → Ring (HistoryPoint W)
  push_point r none = r
  push_point r (some p) = (push r p).1

  abbrev pub newer : Option (Snapshot W) → Option (Snapshot W) → Option (Snapshot W)
  newer none old = old
  newer (some s) old = some s

  -- The block that holds the write lock.
  unfoldable pub hand_over : Work W → List (Text × Text × ℕ) → Shared W → Shared W
  unfolding push point
  hand_over w alerts g = record {
    latest = newer w.snapshot g.latest;
    history = push_point g.history (option_map point w.snapshot);
    events = push_all g.events w.events;
    active_alerts = alerts;
    last_error = w.error;
  }

  -- The time left to sleep, if there is any: `checked_sub` and the guard on its result.
  unfoldable pub time_left : SamplerConfig → ℕ → Option ℕ
  time_left cfg spent =
      if ltb cfg.interval spent
      then none
      else if cfg.interval - spent == 0
      then none
      else some (cfg.interval - spent)

  -- A pass from `collect` to the sleep.
  unfoldable pub cycle : SysConst → SamplerConfig → Readings → Worker W → Worker W
  unfolding work hand_over active time_left
  cycle sys cfg r w =
      let done = work sys r.now r.result w.engine w.prev in
      let alerts = map (λ a. (a.rule_name, a.subject, a.elapsed)) (active f r.clock done.engine) in
      record {
        engine = done.engine;
        prev = done.prev;
        shared = hand_over done alerts w.shared;
        ticks = add_word w.ticks 1;
        overruns = if is_none (time_left cfg r.spent) then add_word w.overruns 1 else w.overruns;
      }
