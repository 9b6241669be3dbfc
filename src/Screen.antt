-- ===== src/Screen.antt =====
-- src/bin/vitals.rs: the terminal view, `sparkline` and `render_text`. An index out of range panics in the
-- source; here the text is then `none`.
pub mod Bars
pub mod Height
mod Tests
use Prim.Native.String.{String}
use vitals.Delta.{ProcRate, SystemRate, Snapshot}
use vitals.Float.{Float, of_nat, clamp, as_secs_f64}
use vitals.Prelude.{
  ℕ, ◌+◌, ◌-◌, ◌*◌, Bool, true, false, Option, none, some, List, [], ◌∷◌, ◌++◌, map, take, drop,
  replicate, length, get_elem?, if◌then◌else◌, ltb, ◌==◌, ◌>>=◌, option_map, unwrap_or, map_from,
}
use vitals.Procfs.Mem.{used, used_pct}
use vitals.Ring.{iter_chrono}
use vitals.Rules.Engine.{Event, EventKind, fired, cleared, cleared_gone}
use vitals.Rules.{metric_name}
use vitals.Sampler.{Shared}
use vitals.Text.Number.{display, display_int}
use vitals.Text.{Text, codes}
use vitals.Units.{human_bytes, human_rate}
use mathlib.Core.List.{reverse}

-- `{:>n}` and `{:<n}`.
abbrev pub pad_left : ℕ → Text → Text
pad_left n t = replicate (n - length t) b' ' ++ t

abbrev pub pad_right : ℕ → Text → Text
pad_right n t = t ++ replicate (n - length t) b' '

-- `format!`: what stands between the braces, and what is put in.
abbrev pub joined : List Text → Text
joined [] = []
joined (t ∷ ts) = t ++ joined ts

abbrev pub blocks : List ℕ
blocks = 0x2581 ∷ 0x2582 ∷ 0x2583 ∷ 0x2584 ∷ 0x2585 ∷ 0x2586 ∷ 0x2587 ∷ 0x2588 ∷ []

abbrev pub newline : Text
newline = 10 ∷ []

-- The match on `e.kind`.
abbrev pub tag : EventKind → Text
tag fired = codes "FIRED  "
tag cleared = codes "CLEARED"
tag cleared_gone = codes "GONE   "

abbrev pub table_header : Text
table_header = joined (
    newline
    ∷ pad_left 7 (codes "PID")
    ∷ codes " "
    ∷ pad_left 7 (codes "PPID")
    ∷ codes " "
    ∷ pad_left 6 (codes "CPU%")
    ∷ codes " "
    ∷ pad_left 9 (codes "RSS")
    ∷ codes " "
    ∷ pad_left 3 (codes "TH")
    ∷ codes " "
    ∷ pad_left 10 (codes "DISK R")
    ∷ codes " "
    ∷ pad_left 10 (codes "DISK W")
    ∷ codes "  "
    ∷ codes "COMMAND"
    ∷ newline
    ∷ [])

module _ {ℓ} {W : Type ℓ} (f : Float W) where
  -- The place of the block for `v`, on a scale from 0 to `max`.
  unfoldable pub level : W → W → ℕ
  unfolding clamp
  level max v = f.to_u64 (
      f.round
        (f.mul (clamp f (of_nat f 0) (of_nat f 1) (f.div v max)) (of_nat f (length blocks - 1))))

  unfoldable pub bars : W → List W → Option Text
  unfolding level
  bars max [] = some []
  bars max (v ∷ vs) = do c ← get_elem? blocks (level max v); rest ← bars max vs; some (c ∷ rest)

  unfoldable pub sparkline : List W → W → Option Text
  unfolding bars
  sparkline vals max = bars (if f.le max (of_nat f 0) then of_nat f 1 else max) vals

  unfoldable pub head_line : SystemRate W → Text
  unfolding used used_pct human_bytes human_rate
  head_line sys = joined (
      codes "vitals   cpu "
      ∷ pad_left 5 (f.fixed 1 sys.cpu_pct)
      ∷ codes "%  mem "
      ∷ pad_left 5 (f.fixed 1 (used_pct f sys.mem))
      ∷ codes "% ("
      ∷ human_bytes f (used sys.mem)
      ∷ codes " / "
      ∷ human_bytes f sys.mem.total
      ∷ codes ")  net rx "
      ∷ pad_left 9 (human_rate f sys.net_rx_bps)
      ∷ codes " tx "
      ∷ pad_left 9 (human_rate f sys.net_tx_bps)
      ∷ newline
      ∷ [])

  abbrev pub millis : ℕ → W
  millis d = f.mul (as_secs_f64 f d) (of_nat f 1000)

  unfoldable pub procs_line : SystemRate W → Text
  unfolding display as_secs_f64
  procs_line sys = joined (
      codes "procs "
      ∷ display sys.proc_count
      ∷ codes "  running "
      ∷ display sys.procs_running
      ∷ codes "  blocked "
      ∷ display sys.procs_blocked
      ∷ codes "  ctxsw "
      ∷ f.fixed 0 sys.ctxt_per_sec
      ∷ codes "/s  vanished "
      ∷ display sys.vanished
      ∷ codes "  scan "
      ∷ f.fixed 1 (millis sys.scan_time)
      ∷ codes "ms  interval "
      ∷ f.fixed 0 (millis sys.interval)
      ∷ codes "ms"
      ∷ newline
      ∷ [])

  unfoldable pub core : ℕ → W → Text
  unfolding display
  core i p = joined (display i ∷ codes ":" ∷ pad_left 3 (f.fixed 0 p) ∷ codes "% " ∷ [])

  unfoldable pub cores_line : List W → Text
  unfolding core
  cores_line pcts =
      if ltb 1 (length pcts)
      then codes "cores    " ++ joined (map_from core 0 pcts) ++ newline
      else []

  unfoldable pub alert_line : Text × Text × ℕ → Text
  unfolding as_secs_f64
  alert_line (rule, subject, dur) = joined (
      codes "  ! "
      ∷ pad_right 16 rule
      ∷ codes " "
      ∷ pad_right 28 subject
      ∷ codes " firing "
      ∷ f.fixed 0 (as_secs_f64 f dur)
      ∷ codes "s"
      ∷ newline
      ∷ [])

  unfoldable pub alerts_part : List (Text × Text × ℕ) → Text
  unfolding alert_line display
  alerts_part [] = []
  alerts_part (a ∷ as') =
      joined
        (newline ∷ codes "ACTIVE ALERTS (" ∷ display (length (a ∷ as')) ∷ codes ")" ∷ newline ∷ [])
      ++ joined (map alert_line (take 8 (a ∷ as')))

  unfoldable pub event_line : Event W → Text
  unfolding metric_name as_secs_f64
  event_line e = joined (
      codes "  "
      ∷ tag e.kind
      ∷ codes " "
      ∷ pad_right 16 e.rule_name
      ∷ codes " "
      ∷ pad_right 26 e.subject
      ∷ codes " "
      ∷ metric_name e.metric
      ∷ codes "="
      ∷ f.fixed 1 e.value
      ∷ codes " (thr "
      ∷ f.fixed 1 e.threshold
      ∷ codes ") after "
      ∷ f.fixed 0 (as_secs_f64 f e.held_for)
      ∷ codes "s"
      ∷ newline
      ∷ [])

  -- `recent`, from the oldest on.
  unfoldable pub events_part : List (Event W) → Text
  unfolding event_line
  events_part [] = []
  events_part (e ∷ es) =
      newline
      ++ codes "RECENT EVENTS"
      ++ newline
      ++ joined (map event_line (take 5 (reverse (e ∷ es))))

  abbrev pub rate_text : Option W → Text
  rate_text r = unwrap_or (option_map (human_rate f) r) (codes "n/a")

  unfoldable pub process_line : ProcRate W → Text
  unfolding display_int human_bytes human_rate
  process_line p = joined (
      pad_left 7 (display_int p.pid)
      ∷ codes " "
      ∷ pad_left 7 (display_int p.ppid)
      ∷ codes " "
      ∷ pad_left 6 (f.fixed 1 p.cpu_pct)
      ∷ codes " "
      ∷ pad_left 9 (human_bytes f p.rss_bytes)
      ∷ codes " "
      ∷ pad_left 3 (display_int p.threads)
      ∷ codes " "
      ∷ pad_left 10 (rate_text p.read_bps)
      ∷ codes " "
      ∷ pad_left 10 (rate_text p.write_bps)
      ∷ codes "  "
      ∷ p.comm
      ∷ (if p.state == b'Z' then codes " <zombie>" else [])
      ∷ newline
      ∷ [])

  -- The line of the history, with what was measured in the last 60 snapshots.
  unfoldable pub spark_line : Shared W → Bool → Option Text
  unfolding sparkline iter_chrono
  spark_line shared true = some []
  spark_line shared false =
      let hist = map (λ h. h.cpu_pct) (iter_chrono shared.history) in
      let tail = drop (length hist - 60) hist in
      option_map (λ bars. codes "cpu 60s  " ++ bars ++ newline) (sparkline tail (of_nat f 100))

  -- What stands below the line of the history.
  unfoldable pub body : Snapshot W → Shared W → ℕ → Text
  unfolding procs_line cores_line alerts_part events_part process_line iter_chrono
  body snap shared top =
      procs_line snap.system
      ++ (cores_line snap.system.per_cpu_pct
          ++ (alerts_part shared.active_alerts
              ++ (events_part (iter_chrono shared.events)
                  ++ (table_header ++ joined (map process_line (take top snap.procs))))))

  unfoldable pub render_text : Snapshot W → Shared W → ℕ → Bool → Option Text
  unfolding head_line spark_line body
  render_text snap shared top plain = do
    spark ← spark_line shared plain
    some (head_line snap.system ++ (spark ++ body snap shared top))
