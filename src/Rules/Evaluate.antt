-- ===== src/Rules/Evaluate.antt =====
-- src/rules.rs: `Engine::evaluate`, `active` and `active_count`. The `retain` goes over the states in
-- the map's order of iteration, and so do the events of the states that it drops.
pub mod Observations
pub mod Subjects
pub mod Invariant
pub mod Gone
pub mod Unread
pub mod Recycled
pub mod Alerts
pub mod Find
pub mod Sources
use vitals.Delta.{ProcRate, SystemRate, Snapshot}
use vitals.Float.{Float, of_nat}
use vitals.Prelude.{
  ℕ, zero, suc, ◌+◌, ◌-◌, Bool, true, false, not, ◌&&◌, Option, none, some, List, [], ◌∷◌, ◌++◌,
  if◌then◌else◌, ◌==◌, ltb, filter, length, add_word, map, get_elem?, sort_by, filter_map, to_list,
  option_map, get_or, insert,
}
use vitals.Procfs.Mem.{used_pct}
use vitals.Rules.Engine.{
  SubjectId, Phase, pending, firing, State, States, Event, cleared_gone, Engine, Out, step,
}
use vitals.Rules.{
  Metric, cpu_pct, mem_pct, rss, read_bps, write_bps, net_rx_bps, net_tx_bps, threads, proc_count,
  Target, system, process, matches, Rule,
}
use vitals.Text.Number.{display_int}
use vitals.Text.{Text, codes}

abbrev pub is_firing : State → Bool
is_firing st = elim st.phase [ pending ↦ false | firing ↦ true ]

-- A row of `active`: the rule, the subject, how long it fires, and since when.
pub record Active : Type 0 where
  pub rule_name : Text
  pub subject : Text
  pub elapsed : ℕ
  pub since : ℕ

module _ {ℓ} {W : Type ℓ} (f : Float W) where
  -- `Engine::system_value`.
  unfoldable pub system_value : Metric → SystemRate W → Option W
  unfolding used_pct
  system_value cpu_pct s = some s.cpu_pct
  system_value mem_pct s = some (used_pct f s.mem)
  system_value net_rx_bps s = some s.net_rx_bps
  system_value net_tx_bps s = some s.net_tx_bps
  system_value proc_count s = some (of_nat f s.proc_count)
  system_value _ s = none

  -- The `match rule.metric` of a process rule; `none` is `continue`.
  unfoldable pub process_value : Metric → ProcRate W → Option W
  process_value cpu_pct p = some p.cpu_pct
  process_value rss p = some (of_nat f p.rss_bytes)
  process_value read_bps p = p.read_bps
  process_value write_bps p = p.write_bps
  process_value threads p = some (f.of_int p.threads)
  process_value _ p = none

  -- The value that a rule takes from a process, `none` where the loop goes on to the next one.
  unfoldable pub observed : Rule W → ProcRate W → Option W
  unfolding matches process_value
  observed rule p =
      if not (matches rule.target p.comm)
      then none
      else if p.is_new
      then none
      else process_value rule.metric p

  abbrev pub process_id : ℕ → ProcRate W → SubjectId
  process_id ri p = record { rule = ri; proc_key = some p.key }

  abbrev pub system_id : ℕ → SubjectId
  system_id ri = record { rule = ri; proc_key = none }

  -- `format!("{} (pid {})", p.comm, p.pid)`.
  unfoldable pub process_label : ProcRate W → Text
  process_label p = p.comm ++ (codes " (pid " ++ (display_int p.pid ++ codes ")"))

  -- One round of the loop over the processes.
  unfoldable pub step_process : ℕ → Rule W → ℕ → ℕ → ProcRate W → Out f → Out f
  unfolding observed step
  step_process ri rule now tick p out = elim (observed rule p) [
    | none ↦ out
    | some v ↦ step f (process_id ri p) rule (process_label p) v now tick out
  ]

  unfoldable pub step_processes : ℕ → Rule W → ℕ → ℕ → List (ProcRate W) → Out f → Out f
  unfolding step_process
  step_processes ri rule now tick [] out = out
  step_processes ri rule now tick (p ∷ ps) out =
      step_processes ri rule now tick ps (step_process ri rule now tick p out)

  -- One round of the loop over the rules, by the rule's target.
  unfoldable pub step_rule : ℕ → Rule W → Target → Snapshot W → ℕ → ℕ → Out f → Out f
  unfolding system_value step_processes
  step_rule ri rule system snap now tick out = elim (system_value rule.metric snap.system) [
    | none ↦ out
    | some v ↦ step f (system_id ri) rule (codes "system") v now tick out
  ]
  step_rule ri rule (process p) snap now tick out = step_processes ri rule now tick snap.procs out

  unfoldable pub step_rules : ℕ → List (Rule W) → Snapshot W → ℕ → ℕ → Out f → Out f
  unfolding step_rule
  step_rules ri [] snap now tick out = out
  step_rules ri (rule ∷ rules) snap now tick out =
      step_rules (suc ri) rules snap now tick (step_rule ri rule rule.target snap now tick out)

  -- The event of a state that is dropped while it fires; the source indexes `rules` with no test.
  unfoldable pub gone_event : List (Rule W) → ℕ → SubjectId × State → Option (Event W)
  gone_event rules now (id, st) =
      if is_firing st
      then option_map
          (λ rule. record {
            kind = cleared_gone;
            rule_name = rule.name;
            subject = st.label;
            metric = rule.metric;
            value = of_nat f 0;
            threshold = rule.threshold;
            held_for = now - st.since;
          })
          (get_elem? rules id.rule)
      else none

  abbrev pub is_seen : ℕ → SubjectId × State → Bool
  is_seen tick s = s.1.seen == tick

  -- `states.retain(..)`: the states that stay, and the events of those that go.
  unfoldable pub reap : List (Rule W) → ℕ → ℕ → States → States × List (Event W)
  unfolding gone_event
  reap rules now tick states = (
    filter (is_seen tick) states,
    filter_map (gone_event rules now) (filter (λ s. not (is_seen tick s)) states),
  )

  -- `Engine::evaluate`.
  unfoldable pub evaluate : Engine W → Snapshot W → ℕ → List (Event W) × Engine W
  unfolding step_rules reap
  evaluate e snap now =
      let tick = add_word e.tick 1 in
      let (states, events) = step_rules 0 e.rules snap now tick (e.states, []) in
      let (kept, gone) = reap e.rules now tick states in
      (events ++ gone, record e { states = kept; tick = tick })

  -- `Engine::active_count`.
  unfoldable pub active_count : Engine W → ℕ
  active_count e = length (filter (λ s. is_firing s.1) e.states)

  -- `Engine::active`; `clock` is what `elapsed()` reads at each state.
  unfoldable pub active : (SubjectId → ℕ) → Engine W → List Active
  unfolding sort_by
  active clock e =
      sort_by (λ a b. ltb a.elapsed b.elapsed)
        (filter_map
          (λ s.
            option_map
              (λ rule. record {
                rule_name = rule.name;
                subject = s.1.label;
                elapsed = clock s.0 - s.1.since;
                since = s.1.since;
              })
              (get_elem? e.rules s.0.rule))
          (filter (λ s. is_firing s.1) e.states))
