-- ===== src/Rules/Trace/Alerts.antt =====
-- About an alert that is on, and an alert that fires, after a sequence of snapshots.
use vitals.Delta.{Snapshot}
use vitals.Float.{Float, IsOrdered}
use vitals.Prelude.{
  ℕ, ◌-◌, ◌≤◌, ◌≡◌, refl, sym, ap, ◌∙◌, subst, true, none, some, List, [], ◌∷◌, ◌++◌, All, All-map,
  All-append, lookup, get_elem?, arith,
}
use vitals.Rules.Engine.{
  SubjectId, subject_eq, State, States, Event, fired, cleared, cleared_gone, new, firing, breaching,
}
use vitals.Rules.Evaluate.Find.{All-both, find, observations-by}
use vitals.Rules.Evaluate.Sources.{Source, HasSource, observations-HasSource, find-Distinct}
use vitals.Rules.Evaluate.Subjects.Separate.{observations-Distinct}
use vitals.Rules.Evaluate.Invariant.{new-IsValid}
use vitals.Rules.Evaluate.Observations.{Observation, DistinctKeys, observations}
use vitals.Rules.Evaluate.Subjects.{Judged, Evaluated, evaluate-Evaluated}
use vitals.Rules.Evaluate.{evaluate}
use vitals.Rules.Machine.History.{
  Reach, FiredAt, firing-FiredAt, Breaches, Sustained, fired-Sustained,
}
use vitals.Rules.Machine.Progress.{lasting_breach_fires}
use vitals.Rules.Machine.{View, view, Report, Moves, reported}
use vitals.Rules.Parse.{is_sane}
use vitals.Rules.Trace.{run, history, run-Reach, run-IsValid, rules-run}
use vitals.Rules.{Rule}

module _ {ℓ} {W : Type ℓ} (f : Float W) (rules : List (Rule W)) where
  module _ (j : SubjectId) {rule : Rule W} (ruled : get_elem? rules j.rule ≡ some rule)
      (ticks : List (Snapshot W × ℕ))
      (distinct : All (λ (t : Snapshot W × ℕ). DistinctKeys t.0.procs) ticks) where
    -- After any snapshots with different process keys, an alert that is on was fired at its `since`
    -- by a breach that had lasted for `sustain`, and no value observed since then has crossed the
    -- `clear` boundary.
    pub run-FiredAt :
        {st : State}
        → lookup j (run f (new f rules) ticks).states ≡ some st
        → st.phase ≡ firing
        → FiredAt f rule st.since (history f rules j ticks)
    run-FiredAt {st} h on = firing-FiredAt f rule (
        subst (Reach f rule _ _) (ap view h ∙ ap (λ p. some (p, st.since)) on)
          (run-Reach f rules j ruled ticks distinct))

    -- With ordered arithmetic and a `clear` value on the sane side: after any snapshots with
    -- different process keys, a subject that was observed at every tick since it was first seen,
    -- and breached each time, for at least `sustain`, has its alert on.
    pub run-firing :
        IsOrdered f
        → is_sane f rule.op rule.clear rule.threshold ≡ true
        → (older : List (W × ℕ)) (value last : W) (t0 now : ℕ)
        → history f rules j ticks ≡ (last, now) ∷ (older ++ (value, t0) ∷ [])
        → breaching f rule value ≡ true
        → All (Breaches f rule) older
        → breaching f rule last ≡ true
        → rule.sustain ≤ now - t0
        → (s : ℕ) × (view (lookup j (run f (new f rules) ticks).states) ≡ some (firing, s))
    run-firing ord sane older value last t0 now seen first all now_too long =
        lasting_breach_fires f ord rule sane older value last t0 now first all now_too long (
          subst (λ h. Reach f rule none h (view (lookup j (run f (new f rules) ticks).states))) seen
            (run-Reach f rules j ruled ticks distinct))

  -- What is behind an event `fired` at the tick of `snap`: the rule, and the subject, which the snapshot
  -- shows by the event's name for it and with the event's value; and the run of breaches of that
  -- subject up to this tick.
  pub record FiredBy (snap : Snapshot W) (now : ℕ) (ticks : List (Snapshot W × ℕ)) (ev : Event W)
      : Type ℓ where
    pub id : SubjectId
    pub rule : Rule W
    pub ruled : get_elem? rules id.rule ≡ some rule
    pub named : ev.rule_name ≡ rule.name
    pub measured : ev.metric ≡ rule.metric
    pub bounded : ev.threshold ≡ rule.threshold
    pub source : Source f snap id rule ev.subject ev.value
    pub seen : history f rules id ((snap, now) ∷ ticks) ≡ (ev.value, now) ∷ history f rules id ticks
    pub sustained : Sustained f rule ev.held_for now ((ev.value, now) ∷ history f rules id ticks)

  module _ (snap : Snapshot W) (now : ℕ) (ticks : List (Snapshot W × ℕ))
      (distinct : All (λ (t : Snapshot W × ℕ). DistinctKeys t.0.procs) ticks) where
    abbrev Explained : Event W → Type ℓ
    Explained ev = ev.kind ≡ fired → FiredBy snap now ticks ev

    -- What is known of each observation of this tick.
    record Known (o : Observation W) : Type ℓ where
      ruled : get_elem? rules o.id.rule ≡ some o.rule
      found : find o.id (observations f 0 rules snap) ≡ some o
      source : Source f snap o.id o.rule o.label o.value

    observations-Known : DistinctKeys snap.procs → All Known (observations f 0 rules snap)
    observations-Known d =
        let os = observations f 0 rules snap in
        All-map os
          (λ o k. record {
            ruled = subst (λ n. get_elem? rules n ≡ some o.rule) (omega arith) k.0;
            found = k.1.0;
            source = k.1.1;
          })
          (All-both (λ (o : Observation W). get_elem? rules (o.id.rule - 0) ≡ some o.rule)
            (λ (o : Observation W). (find o.id os ≡ some o) × HasSource f snap o) os
            (observations-by f 0 rules snap)
            (All-both (λ (o : Observation W). find o.id os ≡ some o) (HasSource f snap) os
              (find-Distinct os (observations-Distinct f 0 rules snap d))
              (observations-HasSource f snap 0 rules)))

    history-Known :
        (o : Observation W)
        → Known o
        → history f rules o.id ((snap, now) ∷ ticks) ≡ (o.value, now) ∷ history f rules o.id ticks
    history-Known o k = rw (k.found, history) refl

    reported-Explained :
        (o : Observation W) (report : Report) {before after : View}
        → Known o
        → Reach f o.rule none (history f rules o.id ticks) before
        → Moves f o.rule o.value now before after report
        → All Explained (reported f o.rule o.label o.value report)
    reported-Explained o none known r m = tt
    reported-Explained o (some (fired, held)) known r m = (
      (λ k. record {
        id = o.id;
        rule = o.rule;
        ruled = known.ruled;
        named = refl;
        measured = refl;
        bounded = refl;
        source = known.source;
        seen = history-Known o known;
        sustained = fired-Sustained f o.rule r m;
      }),
      tt,
    )
    reported-Explained o (some (cleared, held)) known r m = ((λ k. absurd (ground (arith, k))), tt)
    reported-Explained o (some (cleared_gone, held)) known r m = tt

    Judged-Explained :
        {after : States} {os : List (Observation W)} {events : List (Event W)}
        → All Known os
        → Judged f now (run f (new f rules) ticks).states after os events
        → All Explained events
    Judged-Explained by Judged.nil = tt
    Judged-Explained by (Judged.cons {o} {report} {events} m rest) =
        All-append Explained (reported f o.rule o.label o.value report) events
          (reported-Explained o report by.0 (run-Reach f rules o.id by.0.ruled ticks distinct) m)
          (Judged-Explained by.1 rest)

    -- In an engine that was run from its start over snapshots with different process keys, each
    -- `fired` event that the next evaluation returns names a rule, its metric and its threshold,
    -- and gives the name and the value that a subject of the rule has in the snapshot of this tick:
    -- the system, or a process of the table under its key, by its name and pid. That subject has
    -- breached at every observation of an unbroken run of ticks, from one at least `sustain` ago to
    -- this one, and `held_for` is the length of the run.
    pub evaluate-Explained :
        DistinctKeys snap.procs
        → All
            (λ (ev : Event W). ev.kind ≡ fired → FiredBy snap now ticks ev)
            (evaluate f (run f (new f rules) ticks) snap now).0
    evaluate-Explained d =
        let e = run f (new f rules) ticks in
        let same : e.rules ≡ rules = rules-run f (new f rules) ticks ∙ unfold new in refl in
        let ev : Evaluated f e snap now =
          evaluate-Evaluated f e snap now (run-IsValid f (new f rules) ticks (new-IsValid f rules))
            d in
        let by =
          subst (λ rs. All Known (observations f 0 rs snap)) (sym same) (observations-Known d) in
        subst (All Explained) (sym ev.returned) (
          All-append Explained ev.events ev.gone (Judged-Explained by ev.judged)
            (All-map ev.gone (λ g is_gone k. absurd (ground arith)) ev.all_gone))
