-- ===== src/Rules/Trace.antt =====
-- An engine that is run over a sequence of snapshots, and the histories of its subjects.
pub mod Alerts
pub mod Inert
use mathlib.Core.Option.{some-injective}
use vitals.Delta.{ProcRate, Snapshot}
use vitals.Float.{Float, IsOrdered}
use vitals.Prelude.{
  ℕ, zero, suc, ◌-◌, ◌+◌, ◌≤◌, ◌<◌, ◌≡◌, ◌≢◌, refl, sym, ap, ◌∙◌, subst, Bool, true, false, Option,
  none, some, List, [], ◌∷◌, ◌++◌, arith, All, All-map, All-append, inl, inr, Bool-cases,
  Option-cases, lookup, get_elem?, if◌then◌else◌, option_map,
}
use vitals.Rules.Engine.{
  SubjectId, subject_eq, subject_beq, subject_beq_iff, State, States, Event, Engine, new, Phase,
  firing, breaching,
}
use vitals.Rules.Evaluate.Find.{find, find-none, find-some, observations-by}
use vitals.Rules.Evaluate.Invariant.{IsValid, new-IsValid, evaluate-IsValid}
use vitals.Rules.Evaluate.Observations.{
  Observation, DistinctKeys, observations, of_rule, of_processes, of_process,
}
use vitals.Rules.Evaluate.Subjects.Separate.{of_rule-rule, observations-rule}
use vitals.Rules.Evaluate.Subjects.{Judged, Evaluated, evaluate-Evaluated}
use vitals.Rules.Evaluate.{evaluate, observed, system_value}
use vitals.Rules.Machine.History.{History, Reach, begin, next, FiredAt, firing-FiredAt, Breaches}
use vitals.Rules.Machine.Progress.{lasting_breach_fires}
use vitals.Rules.Machine.{View, view, Report, Moves}
use vitals.Rules.Parse.{is_sane}
use vitals.Rules.{Rule, Target, system, process}

module _ {ℓ} {W : Type ℓ} (f : Float W) where
  -- The engine after some ticks, each a snapshot and its instant, newest first.
  abbrev pub run : Engine W → List (Snapshot W × ℕ) → Engine W
  run e [] = e
  run e ((snap, now) ∷ ticks) = (evaluate f (run e ticks) snap now).1

  -- The last observations of a subject, newest first, as far back as it was observed at every tick.
  abbrev pub history : List (Rule W) → SubjectId → List (Snapshot W × ℕ) → List (W × ℕ)
  history rules j [] = []
  history rules j ((snap, now) ∷ ticks) = elim (find j (observations f 0 rules snap)) [
    | none ↦ []
    | some o ↦ (o.value, now) ∷ history rules j ticks
  ]

  rules-evaluate :
      (e : Engine W) (snap : Snapshot W) (now : ℕ) → (evaluate f e snap now).1.rules ≡ e.rules
  unfolding evaluate
  rules-evaluate e snap now = refl

  pub rules-run : (e : Engine W) (ticks : List (Snapshot W × ℕ)) → (run e ticks).rules ≡ e.rules
  rules-run e [] = refl
  rules-run e ((snap, now) ∷ ticks) = rules-evaluate (run e ticks) snap now ∙ rules-run e ticks

  pub run-IsValid :
      (e : Engine W) (ticks : List (Snapshot W × ℕ)) → IsValid f e → IsValid f (run e ticks)
  run-IsValid e [] v = v
  run-IsValid e ((snap, now) ∷ ticks) v =
      evaluate-IsValid f (run e ticks) snap now (run-IsValid e ticks v)

  -- The move of a subject that was observed.
  Judged-Moves :
      {now : ℕ} {before after : States} {os : List (Observation W)} {events : List (Event W)}
      (j : SubjectId) {o : Observation W}
      → Judged f now before after os events
      → find j os ≡ some o
      → (report : Report) × Moves f o.rule o.value now
          (view (lookup j before))
          (view (lookup j after))
          report
  Judged-Moves j Judged.nil h = cc
  Judged-Moves {now} {before} {after} j {o} (Judged.cons {o = u} {report = r} m rest) h =
      elim (Bool-cases (subject_beq u.id j)) [
        | inl same ↦
            let e : u ≡ o = some-injective _ _ (rw same at h) in
            let k : u.id ≡ j = (subject_beq_iff u.id j).0 same in
            (
              r,
              subst
                  (λ (x : Observation W).
                    Moves f x.rule x.value now (view (lookup j before)) (view (lookup j after)) r)
                  e
                  (subst
                    (λ i.
                      Moves f u.rule u.value now (view (lookup i before)) (view (lookup i after)) r)
                    k m),
            )
        | inr other ↦ Judged-Moves j rest (rw other at h)
      ]

  module _ (rules : List (Rule W)) (j : SubjectId) {rule : Rule W}
      (ruled : get_elem? rules j.rule ≡ some rule) where
    -- After any snapshots with different process keys, the state that an engine keeps of a subject
    -- whose rule there is, is what the state machine makes of the subject's observations, from no
    -- state, as far back as it was observed at every tick.
    pub run-Reach :
        (ticks : List (Snapshot W × ℕ))
        → All (λ (t : Snapshot W × ℕ). DistinctKeys t.0.procs) ticks
        → Reach f rule none
            (history rules j ticks)
            (view (lookup j (run (new f rules) ticks).states))
    unfolding new lookup
    run-Reach [] d = start
      where
        start : Reach f rule none [] (view (lookup j (new f rules).states))
        start = begin
    run-Reach ((snap, now) ∷ ticks) (d, ds) =
        let e = run (new f rules) ticks in
        let same : e.rules ≡ rules = rules-run (new f rules) ticks ∙ start_rules in
        let ev : Evaluated f e snap now =
          evaluate-Evaluated f e snap now (run-IsValid (new f rules) ticks (new-IsValid f rules))
            d in
        let os = observations f 0 rules snap in
        let os_is : observations f 0 e.rules snap ≡ os = ap (λ rs. observations f 0 rs snap) same in
        elim (Option-cases (find j os)) [
          | inl gone ↦
              rw (gone, history)
                (subst (λ v. Reach f rule none [] (view v))
                  (sym (
                    ev.unobserved j (
                      subst (λ us. All (λ (o : Observation W). o.id ≢ j) us) (sym os_is)
                        (find-none j os gone))))
                  begin)
          | inr (o, there) ↦
              let (report, m) = Judged-Moves j ev.judged (ap (find j) os_is ∙ there) in
              let by =
                find-some (λ (o : Observation W). get_elem? rules (o.id.rule - 0) ≡ some o.rule) j
                  os (observations-by f 0 rules snap) there in
              rw (there, history)
                (next (run-Reach ticks ds) (
                  subst
                    (λ r.
                      Moves f r o.value now (view (lookup j e.states))
                        (view (lookup j (evaluate f e snap now).1.states)) report)
                    (by_rule o by.0 by.1) m))
        ]
      where
        start_rules : (new f rules).rules ≡ rules
        start_rules = refl

        by_rule :
            (o : Observation W)
            → o.id ≡ j
            → get_elem? rules (o.id.rule - 0) ≡ some o.rule
            → o.rule ≡ rule
        by_rule o e by =
            let n : o.id.rule - 0 ≡ j.rule = omega (arith, ap (λ (i : SubjectId). i.rule) e) in
            some-injective _ _ (sym by ∙ ap (get_elem? rules) n ∙ ruled)
