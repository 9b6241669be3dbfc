-- ===== src/Screen/Height/Frame.antt =====
-- About the height of a whole frame.
use vitals.Delta.{ProcRate, Snapshot}
use vitals.Float.{Float, IsOrdered, IsRounding, of_nat}
use vitals.Prelude.{
  ℕ, suc, ◌+◌, ◌-◌, ◌≡◌, refl, ap, ◌∙◌, min, Bool, true, false, some, List, [], ◌∷◌, ◌++◌, map,
  take, drop, length, All, All-take, All-reverse, All-map, length-take, length-reverse, zero, arith,
  ltb, if◌then◌else◌,
}
use vitals.Ring.{iter_chrono}
use vitals.Rules.Engine.{Event}
use vitals.Sampler.{Shared}
use vitals.Screen.Bars.{IsBlock, sparkline-IsBlock}
use vitals.Screen.Height.{
  feeds-joined, feeds-rows, feeds-head_line, feeds-procs_line, feeds-cores_line, IsPlainAlert,
  IsPlainEvent, IsPlainProcess, feeds-alert_line, feeds-event_line, feeds-process_line,
}
use vitals.Screen.{
  joined, newline, table_header, head_line, procs_line, cores_line, alert_line, alerts_part,
  event_line, events_part, process_line, spark_line, body, render_text,
}
use vitals.Text.Feeds.{feeds, feeds-append, feeds-display}
use vitals.Text.Number.{display}
use vitals.Text.{Text, codes}
use vitals.Units.Feeds.{HasNoFeed}
use mathlib.Core.List.{reverse}

-- A blank line, a title, and as many rows as are shown; nothing for an empty list.
abbrev pub part_height : ℕ → ℕ → ℕ
part_height shown zero = 0
part_height shown (suc n) = 2 + min shown (suc n)

module _ {ℓ} {W : Type ℓ} (f : Float W) (plain : HasNoFeed f) where
  -- The lines of a frame: two of totals and one of history, one of cores, the alerts, the events, and the
  -- table with its blank line and its header.
  abbrev pub height : Snapshot W → Shared W → ℕ → Bool → ℕ
  height snap shared top once =
      (if once then 2 else 3)
      + (if ltb 1 (length snap.system.per_cpu_pct) then 1 else 0)
      + part_height 8 (length shared.active_alerts)
      + part_height 5 (length (iter_chrono shared.events))
      + 2
      + min top (length snap.procs)

  -- The texts of a frame that are not the program's own hold no line feed.
  pub record IsPlain (snap : Snapshot W) (shared : Shared W) : Type ℓ where
    pub alerts : All (IsPlainAlert f plain) shared.active_alerts
    pub events : All (IsPlainEvent f plain) (iter_chrono shared.events)
    pub procs : All (IsPlainProcess f plain) snap.procs

  feeds-alerts_part :
      (as' : List (Text × Text × ℕ))
      → All (IsPlainAlert f plain) as'
      → feeds (alerts_part f as') ≡ part_height 8 (length as')
  unfolding alerts_part
  feeds-alerts_part [] all = refl
  feeds-alerts_part (a ∷ as') all =
      let shown = take 8 (a ∷ as') in
      let each = All-map shown (feeds-alert_line f plain) (All-take _ 8 (a ∷ as') all) in
      let title =
        newline ∷ codes "ACTIVE ALERTS (" ∷ display (length (a ∷ as')) ∷ codes ")" ∷ newline ∷ [] in
      feeds-append (joined title) (joined (map (alert_line f) shown))
      ∙ omega (
        arith,
        feeds-joined title,
        feeds-display (length (a ∷ as')),
        feeds-rows (alert_line f) shown each,
        length-take 8 (a ∷ as'),
      )

  feeds-events_part :
      (es : List (Event W))
      → All (IsPlainEvent f plain) es
      → feeds (events_part f es) ≡ part_height 5 (length es)
  unfolding events_part
  feeds-events_part [] all = refl
  feeds-events_part (e ∷ es) all =
      let newest = reverse (e ∷ es) in
      let each =
        All-map (take 5 newest) (feeds-event_line f plain)
          (All-take _ 5 newest (All-reverse _ (e ∷ es) all)) in
      feeds-append (newline ++ codes "RECENT EVENTS" ++ newline)
        (joined (map (event_line f) (take 5 newest)))
      ∙ omega (
        arith,
        feeds-rows (event_line f) (take 5 newest) each,
        length-take 5 newest,
        length-reverse (e ∷ es),
      )

  feeds-table :
      (top : ℕ) (ps : List (ProcRate W))
      → All (IsPlainProcess f plain) ps
      → feeds (joined (map (process_line f) (take top ps))) ≡ min top (length ps)
  feeds-table top ps all =
      feeds-rows (process_line f) (take top ps)
        (All-map (take top ps) (feeds-process_line f plain) (All-take _ top ps all))
      ∙ length-take top ps

  body_parts :
      (snap : Snapshot W) (shared : Shared W) (top : ℕ)
      → feeds (body f snap shared top)
        ≡ feeds (procs_line f snap.system)
          + (feeds (cores_line f snap.system.per_cpu_pct)
              + (feeds (alerts_part f shared.active_alerts)
                  + (feeds (events_part f (iter_chrono shared.events))
                      + (2 + feeds (joined (map (process_line f) (take top snap.procs)))))))
  unfolding body
  body_parts snap shared top =
      feeds-append (procs_line f snap.system) _
      ∙ ap (λ n. feeds (procs_line f snap.system) + n)
          (feeds-append (cores_line f snap.system.per_cpu_pct) _
            ∙ ap (λ n. feeds (cores_line f snap.system.per_cpu_pct) + n)
                (feeds-append (alerts_part f shared.active_alerts) _
                  ∙ ap (λ n. feeds (alerts_part f shared.active_alerts) + n)
                      (feeds-append (events_part f (iter_chrono shared.events)) _
                        ∙ ap (λ n. feeds (events_part f (iter_chrono shared.events)) + n)
                            (feeds-append table_header
                              (joined (map (process_line f) (take top snap.procs)))))))

  feeds-body :
      (snap : Snapshot W) (shared : Shared W) (top : ℕ)
      → IsPlain snap shared
      → 1 + feeds (body f snap shared top) ≡ height snap shared top true
  feeds-body snap shared top p = omega (
    arith,
    body_parts snap shared top,
    feeds-procs_line f plain snap.system,
    feeds-cores_line f plain snap.system.per_cpu_pct,
    feeds-alerts_part shared.active_alerts p.alerts,
    feeds-events_part (iter_chrono shared.events) p.events,
    feeds-table top snap.procs p.procs,
  )

  module _ (ord : IsOrdered f) (rounding : IsRounding f) where
    feeds-blocks : (t : Text) → All IsBlock t → feeds t ≡ 0
    feeds-blocks [] all = refl
    feeds-blocks (c ∷ t) all = ground (arith, feeds-blocks t all.1)

    feeds-spark_line :
        (shared : Shared W) (once : Bool)
        → (t : Text) × (spark_line f shared once ≡ some t) × (feeds t ≡ (if once then 0 else 1))
    unfolding spark_line
    feeds-spark_line shared true = ([], refl, refl)
    feeds-spark_line shared false =
        let hist = map (λ h. h.cpu_pct) (iter_chrono shared.history) in
        let (t, is, size, all) =
          sparkline-IsBlock f ord rounding (drop (length hist - 60) hist) (of_nat f 100) in
        (
          codes "cpu 60s  " ++ t ++ newline,
          rw is refl,
          feeds-append (codes "cpu 60s  " ++ t) newline
              ∙ omega (arith, feeds-append (codes "cpu 60s  ") t, feeds-blocks t all),
        )

    whole_height :
        (snap : Snapshot W) (shared : Shared W) (top : ℕ) (once : Bool) (spark : Text)
        → feeds spark ≡ (if once then 0 else 1)
        → IsPlain snap shared
        → feeds (head_line f snap.system ++ (spark ++ body f snap shared top))
          ≡ height snap shared top once
    whole_height snap shared top once spark count p =
        let rows = feeds-append spark (body f snap shared top) in
        let first = feeds-head_line f plain snap.system in
        let all = feeds-append (head_line f snap.system) (spark ++ body f snap shared top) in
        let low = feeds-body snap shared top p in
        elim once
            as (λ b.
              feeds spark ≡ (if b then 0 else 1)
              → feeds (head_line f snap.system ++ (spark ++ body f snap shared top))
                ≡ height snap shared top b) [ true ↦ λ c. omega arith | false ↦ λ c. omega arith ]
          count

    -- With ordered arithmetic, rounding that keeps order and whole numbers, and numbers printed
    -- without line feeds: a frame is drawn without a panic, and, if no text in it holds a line
    -- feed, has exactly the height that the snapshot gives it, with at most 8 alerts, 5 events and
    -- `top` processes, however many there are.
    pub render_text-height :
        (snap : Snapshot W) (shared : Shared W) (top : ℕ) (once : Bool)
        → IsPlain snap shared
        → (t : Text) × (render_text f snap shared top once ≡ some t)
          × (feeds t ≡ height snap shared top once)
    render_text-height snap shared top once p =
        let (spark, is, count) = feeds-spark_line shared once in
        (
          head_line f snap.system ++ (spark ++ body f snap shared top),
          unfold render_text in rw is refl,
          whole_height snap shared top once spark count p,
        )
