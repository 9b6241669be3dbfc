-- ===== src/Screen/Height.antt =====
-- About the lines of a frame: each of its rows ends in one line feed and holds no other.
pub mod Frame
use vitals.Delta.{ProcRate, SystemRate, Snapshot}
use vitals.Float.{Float, IsOrdered, IsRounding, of_nat, as_secs_f64}
use vitals.Prelude.{
  ℕ, zero, suc, ◌+◌, ◌-◌, ◌≤◌, ◌≡◌, refl, ap, ◌∙◌, min, Bool, true, false, Option, none, some, List,
  [], ◌∷◌, ◌++◌, map, take, drop, length, All, arith, inl, inr, Bool-cases, ltb, if◌then◌else◌,
  replicate, map_from, ◌==◌, ◌>>=◌, option_map, unwrap_or,
}
use vitals.Procfs.Mem.{used, used_pct}
use vitals.Ring.{iter_chrono}
use vitals.Rules.Engine.{Event, EventKind, fired, cleared, cleared_gone}
use vitals.Rules.{Metric, metric_name}
use vitals.Sampler.{Shared}
use vitals.Screen.Bars.{IsBlock, sparkline-IsBlock}
use vitals.Screen.{
  pad_left, pad_right, joined, newline, tag, table_header, sparkline, head_line, procs_line, core,
  cores_line, alert_line, alerts_part, event_line, events_part, rate_text, process_line, spark_line,
  body, render_text, millis,
}
use vitals.Text.Feeds.{feeds, feeds-append, feeds-display, feeds-display_int, feeds-replicate_space}
use vitals.Text.Number.{display, display_int}
use vitals.Text.{Text, codes}
use vitals.Units.Feeds.{HasNoFeed, feeds-human_bytes, feeds-human_rate}
use vitals.Units.{human_bytes, human_rate}
use mathlib.Core.List.{reverse, reverse-append}

feeds-pad_left : (n : ℕ) (t : Text) → feeds (pad_left n t) ≡ feeds t
feeds-pad_left n t =
    omega
      (arith, feeds-append (replicate (n - length t) b' ') t, feeds-replicate_space (n - length t))

feeds-pad_right : (n : ℕ) (t : Text) → feeds (pad_right n t) ≡ feeds t
feeds-pad_right n t =
    omega
      (arith, feeds-append t (replicate (n - length t) b' '), feeds-replicate_space (n - length t))

-- The line feeds of all pieces.
abbrev total_feeds : List Text → ℕ
total_feeds [] = 0
total_feeds (t ∷ ts) = feeds t + total_feeds ts

pub feeds-joined : (ts : List Text) → feeds (joined ts) ≡ total_feeds ts
feeds-joined [] = refl
feeds-joined (t ∷ ts) = omega (arith, feeds-append t (joined ts), feeds-joined ts)

-- One line for each item.
pub feeds-rows {ℓ} :
    {A : Type ℓ} (row : A → Text) (xs : List A)
    → All (λ x. feeds (row x) ≡ 1) xs
    → feeds (joined (map row xs)) ≡ length xs
feeds-rows row [] all = refl
feeds-rows row (x ∷ xs) all =
    feeds-append (row x) (joined (map row xs)) ∙ omega (arith, all.0, feeds-rows row xs all.1)

feeds-tag : (k : EventKind) → feeds (tag k) ≡ 0
feeds-tag fired = refl
feeds-tag cleared = refl
feeds-tag cleared_gone = refl

feeds-metric_name : (m : Metric) → feeds (metric_name m) ≡ 0
unfolding metric_name
feeds-metric_name m = ground arith

module _ {ℓ} {W : Type ℓ} (f : Float W) (plain : HasNoFeed f) where
  pub feeds-head_line : (sys : SystemRate W) → feeds (head_line f sys) ≡ 1
  unfolding head_line
  feeds-head_line sys =
      rw feeds-joined
        (omega (arith, feeds-pad_left, plain, feeds-human_bytes f plain, feeds-human_rate f plain))

  pub feeds-procs_line : (sys : SystemRate W) → feeds (procs_line f sys) ≡ 1
  unfolding procs_line
  feeds-procs_line sys = rw feeds-joined (omega (arith, plain, feeds-display))

  feeds-core : (i : ℕ) (p : W) → feeds (core f i p) ≡ 0
  unfolding core
  feeds-core i p = rw feeds-joined (omega (arith, plain, feeds-display, feeds-pad_left))

  feeds-cores : (i : ℕ) (ps : List W) → feeds (joined (map_from (core f) i ps)) ≡ 0
  feeds-cores i [] = refl
  feeds-cores i (p ∷ ps) =
      feeds-append (core f i p) (joined (map_from (core f) (suc i) ps))
      ∙ omega (arith, feeds-core i p, feeds-cores (suc i) ps)

  pub feeds-cores_line :
      (ps : List W) → feeds (cores_line f ps) ≡ (if ltb 1 (length ps) then 1 else 0)
  unfolding cores_line
  feeds-cores_line ps = elim (Bool-cases (ltb 1 (length ps))) [
    | inl many ↦ rw many (
        feeds-append (codes "cores    ") (joined (map_from (core f) 0 ps) ++ newline)
        ∙ omega (arith, feeds-append (joined (map_from (core f) 0 ps)) newline, feeds-cores 0 ps))
    | inr one ↦ rw one refl
  ]

  -- The texts that a frame takes as they are.
  abbrev pub IsPlainAlert : Text × Text × ℕ → Type 0
  IsPlainAlert (rule, subject, dur) = (feeds rule ≡ 0) × (feeds subject ≡ 0)

  abbrev pub IsPlainEvent : Event W → Type 0
  IsPlainEvent e = (feeds e.rule_name ≡ 0) × (feeds e.subject ≡ 0)

  abbrev pub IsPlainProcess : ProcRate W → Type 0
  IsPlainProcess p = feeds p.comm ≡ 0

  pub feeds-alert_line : (a : Text × Text × ℕ) → IsPlainAlert a → feeds (alert_line f a) ≡ 1
  unfolding alert_line
  feeds-alert_line (rule, subject, dur) h = rw feeds-joined (omega (arith, plain, feeds-pad_right))

  pub feeds-event_line : (e : Event W) → IsPlainEvent e → feeds (event_line f e) ≡ 1
  unfolding event_line
  feeds-event_line e h =
      rw feeds-joined
        (omega (arith, plain, feeds-pad_right, feeds-tag e.kind, feeds-metric_name e.metric))

  feeds-rate_text : (r : Option W) → feeds (rate_text f r) ≡ 0
  feeds-rate_text none = refl
  feeds-rate_text (some r) = feeds-human_rate f plain r

  feeds-zombie : (c : ℕ) → feeds (if c == b'Z' then codes " <zombie>" else []) ≡ 0
  feeds-zombie c = ground arith

  pub feeds-process_line : (p : ProcRate W) → IsPlainProcess p → feeds (process_line f p) ≡ 1
  unfolding process_line
  feeds-process_line p h = rw feeds-joined (
      omega (
        arith,
        plain,
        feeds-pad_left,
        feeds-display_int,
        feeds-human_bytes f plain,
        feeds-rate_text,
        feeds-zombie,
      ))
