-- ===== src/Screen/Tests.antt =====
-- A frame with an alert, an event and a process.
use vitals.Delta.Fixtures.{shell_key, snapshot_at, row_at}
use vitals.Delta.{Snapshot}
use vitals.Float.Whole.{whole, whole-IsOrdered, whole-IsRounding}
use vitals.Prelude.{ℕ, ◌≡◌, refl, true, none, some, [], ◌∷◌}
use vitals.Ring.{iter_chrono}
use vitals.Ring as Ring
use vitals.Sampler.{HistoryPoint, Shared}
use vitals.Screen.Height.Frame.{height, IsPlain, render_text-height}
use vitals.Screen.{sparkline, render_text}
use vitals.Text.Feeds.{feeds, feeds-display}
use vitals.Text.{Text, codes}
use vitals.Units.Feeds.{HasNoFeed}

whole-HasNoFeed : HasNoFeed whole
whole-HasNoFeed n w = feeds-display w

abbrev history_point : ℕ → HistoryPoint ℕ
history_point cpu = record {
  cpu_pct = cpu;
  mem_pct = 40;
  net_rx_bps = 0;
  net_tx_bps = 0;
  proc_count = 1;
  scan_micros = 5;
}

abbrev screen_snapshot : Snapshot ℕ
screen_snapshot = snapshot_at 30 (row_at shell_key 3 none ∷ [])

abbrev screen_shared : Shared ℕ
screen_shared = record {
  latest = some screen_snapshot;
  history = Ring.new 4;
  events = Ring.new 4;
  active_alerts = (codes "hot", codes "system", 5000000000) ∷ [];
  last_error = none;
}

highest : sparkline whole (0 ∷ 100 ∷ 250 ∷ []) 100 ≡ some (0x2581 ∷ 0x2588 ∷ 0x2588 ∷ [])
unfolding sparkline
highest = refl

plain : IsPlain whole whole-HasNoFeed screen_snapshot screen_shared
unfolding iter_chrono Ring.new Ring.get
plain = record { alerts = ((refl, refl), tt); events = tt; procs = (refl, tt) }

render_text-height_example :
    (t : Text) × (render_text whole screen_snapshot screen_shared 15 true ≡ some t)
    × (feeds t ≡ height whole whole-HasNoFeed screen_snapshot screen_shared 15 true)
render_text-height_example =
    render_text-height whole whole-HasNoFeed whole-IsOrdered whole-IsRounding screen_snapshot
      screen_shared 15 true plain
