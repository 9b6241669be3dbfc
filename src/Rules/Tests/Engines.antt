-- ===== src/Rules/Tests/Engines.antt =====
-- Engines over several snapshots.
use mathlib.Core.List.{Permᴰ}
use vitals.Delta.Fixtures.{sys, new_key, shell_key, first, second, row_at, snapshot_at}
use vitals.Delta.{Snapshot, diff}
use vitals.Float.Whole.{whole, whole-IsOrdered}
use vitals.Prelude.{
  length, ltb, ℕ, ◌-◌, ◌≡◌, ◌≢◌, refl, Bool, true, false, Option, none, some, List, [], ◌∷◌, ◌++◌,
  arith, All, lookup, get_elem?, Unique,
}
use vitals.Procfs.{key_eq}
use vitals.Rules.Engine.{SubjectId, subject_eq, State, firing, fired, Event, event, Engine, new}
use vitals.Rules.Evaluate.Gone.{Reported, evaluate-Reported}
use vitals.Rules.Evaluate.Invariant.{IsValid, evaluate-IsValid}
use vitals.Rules.Evaluate.Observations.{Observation, DistinctKeys, observations}
use vitals.Rules.Evaluate.Recycled.{recycled-none}
use vitals.Rules.Evaluate.Subjects.{Evaluated, evaluate-Evaluated}
use vitals.Rules.Evaluate.Unread.{unread-Reported}
use vitals.Rules.Evaluate.Alerts.{alerts_on, LongestFirst, active-listed}
use vitals.Rules.Evaluate.{evaluate, active, active_count}
use vitals.Rules.Machine.History.{FiredAt, Reach}
use vitals.Rules.Machine.{view}
use vitals.Rules.Tests.{cpu_rule, read_rule, cpu_subject}
use vitals.Rules.Trace.Alerts.{run-FiredAt, run-firing, evaluate-Explained, FiredBy}
use vitals.Rules.Trace.{run, history, run-Reach}
use vitals.Rules.Trace.Inert.{of_rss, inert-none}
use vitals.Rules.{Rule, rss}
use vitals.Text.{codes}

abbrev rules : List (Rule ℕ)
rules = cpu_rule ∷ read_rule ∷ []

abbrev hot : Snapshot ℕ
hot = snapshot_at 90 (row_at shell_key 5 (some 70) ∷ [])

-- The process is there, and its counters are not.
abbrev unreadable : Snapshot ℕ
unreadable = snapshot_at 90 (row_at shell_key 5 none ∷ [])

abbrev empty : Snapshot ℕ
empty = snapshot_at 90 []

abbrev reader : SubjectId
reader = record { rule = 1; proc_key = some shell_key }

-- An engine whose read alert is on.
abbrev reading : Engine ℕ
reading = record {
  rules = rules;
  states =
      (reader, record { phase = firing; since = 100; seen = 1; label = codes "job (pid 9)" }) ∷ [];
  tick = 1;
}

reading-IsValid : IsValid whole reading
unfolding lookup
reading-IsValid = record { unique = (refl, tt); ticked = (refl, tt); in_range = (omega arith, tt) }

hot-DistinctKeys : DistinctKeys hot.procs
hot-DistinctKeys = (tt, tt)

evaluate-Evaluated_example : Evaluated whole reading hot 105
evaluate-Evaluated_example = evaluate-Evaluated whole reading hot 105 reading-IsValid (tt, tt)

evaluate-IsValid_example : IsValid whole (evaluate whole reading hot 105).1
evaluate-IsValid_example = evaluate-IsValid whole reading hot 105 reading-IsValid

abbrev reading_state : State
reading_state = record { phase = firing; since = 100; seen = 1; label = codes "job (pid 9)" }

reading_lookup : lookup reader reading.states ≡ some reading_state
unfolding lookup
reading_lookup = refl

reader_unseen : All (λ (o : Observation ℕ). o.id ≢ reader) (observations whole 0 rules empty)
unfolding vitals.Rules.Evaluate.system_value
reader_unseen = ((λ e. ground (arith, e)), tt)

evaluate-Reported_example : Reported whole reading empty 140 reader reading_state
evaluate-Reported_example =
    evaluate-Reported whole reading empty 140 reader reading_state reading-IsValid tt reading_lookup
      refl reader_unseen

unread_none :
    vitals.Rules.Evaluate.process_value whole read_rule.metric (row_at shell_key 5 none) ≡ none
unfolding vitals.Rules.Evaluate.process_value
unread_none = refl

unread-Reported_example : Reported whole reading unreadable 140 reader reading_state
unread-Reported_example =
    unread-Reported whole reading unreadable 140 1 0 reading-IsValid (tt, tt) refl refl unread_none
      reading_lookup refl

second-Unique : Unique second.procs
unfolding lookup
second-Unique = (refl, (refl, tt))

new_key_absent : lookup new_key first.procs ≡ none
unfolding lookup
new_key_absent = refl

recycled-none_example :
    lookup
      (record { rule = 1; proc_key = some new_key })
      (evaluate whole reading (diff whole sys first second) 140).1.states
    ≡ none
recycled-none_example =
    recycled-none whole reading sys first second 140 1 new_key reading-IsValid second-Unique
      new_key_absent

-- Hot at 100, 105 and 110.
abbrev ticks : List (Snapshot ℕ × ℕ)
ticks = (hot, 110) ∷ (hot, 105) ∷ (hot, 100) ∷ []

ticks-DistinctKeys : All (λ (t : Snapshot ℕ × ℕ). DistinctKeys t.0.procs) ticks
ticks-DistinctKeys = ((tt, tt), ((tt, tt), ((tt, tt), tt)))

abbrev hot_state : State
hot_state = record { phase = firing; since = 110; seen = 3; label = codes "system" }

cpu_lookup : lookup cpu_subject (run whole (new whole rules) ticks).states ≡ some hot_state
unfolding lookup evaluate new vitals.Prelude.insert
cpu_lookup = refl

cpu_history : history whole rules cpu_subject ticks ≡ (90, 110) ∷ (90, 105) ∷ (90, 100) ∷ []
unfolding vitals.Rules.Evaluate.system_value
cpu_history = refl

run-Reach_example :
    Reach whole cpu_rule none
      (history whole rules cpu_subject ticks)
      (view (lookup cpu_subject (run whole (new whole rules) ticks).states))
run-Reach_example = run-Reach whole rules cpu_subject refl ticks ticks-DistinctKeys

run-FiredAt_example : FiredAt whole cpu_rule 110 (history whole rules cpu_subject ticks)
run-FiredAt_example =
    run-FiredAt whole rules cpu_subject refl ticks ticks-DistinctKeys cpu_lookup refl

run-firing_example :
    (s : ℕ) × (view (lookup cpu_subject (run whole (new whole rules) ticks).states)
      ≡ some (firing, s))
run-firing_example =
    run-firing whole rules cpu_subject {rule = cpu_rule} refl ticks ticks-DistinctKeys
      whole-IsOrdered refl ((90, 105) ∷ []) 90 90 100 110 cpu_history refl (refl, tt) refl
      (omega arith)

abbrev early : List (Snapshot ℕ × ℕ)
early = (hot, 105) ∷ (hot, 100) ∷ []

evaluate-Explained_example :
    All
      (λ (ev : Event ℕ). ev.kind ≡ fired → FiredBy whole rules hot 110 early ev)
      (evaluate whole (run whole (new whole rules) early) hot 110).0
evaluate-Explained_example =
    evaluate-Explained whole rules hot 110 early ((tt, tt), ((tt, tt), tt)) (tt, tt)

-- The evaluation that it is about returns this event.
fires_at_110 :
    (evaluate whole (run whole (new whole rules) early) hot 110).0
    ≡ event whole fired cpu_rule (codes "system") 90 80 10 ∷ []
unfolding lookup evaluate new vitals.Prelude.insert
fires_at_110 = refl

active-listed_example :
    Permᴰ (active whole (λ id. 200) reading) (alerts_on whole rules (λ id. 200) reading.states)
    × LongestFirst whole (active whole (λ id. 200) reading)
    × (length (active whole (λ id. 200) reading) ≡ active_count whole reading)
active-listed_example = active-listed whole (λ id. 200) reading reading-IsValid

-- A system rule on the memory of processes.
abbrev inert_rule : Rule ℕ
inert_rule = record cpu_rule { metric = rss; threshold = 0; sustain = 0 }

inert-none_example :
    lookup cpu_subject (run whole (new whole (inert_rule ∷ [])) ticks).states ≡ none
inert-none_example =
    inert-none whole (inert_rule ∷ []) cpu_subject {rule = inert_rule} refl refl of_rss ticks
      ticks-DistinctKeys
