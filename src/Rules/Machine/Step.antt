-- ===== src/Rules/Machine/Step.antt =====
-- `Engine::step` against the state machine of one subject.
use mathlib.Core.Option.{some-injective}
use vitals.Float.{Float}
use vitals.Prelude.{
  ℕ, ◌-◌, ◌≡◌, ◌≢◌, refl, sym, ◌∙◌, ap, inl, inr, none, some, List, ◌++◌, leb, arith, ◌==◌,
  append-nil, lookup, insert, remove, lookup-insert, lookup-remove, Bool-cases, Option-cases,
  leb→le, subst,
}
use vitals.Rules.Engine.{
  SubjectId, subject_eq, subject_beq_iff, Phase, pending, firing, State, States, Event, fired,
  cleared, breaching, still_active, Out, step, step_none, step_some,
}
use vitals.Rules.Machine.{
  view, Report, Moves, stay_idle, fire_at_once, start_pending, drop_pending, fire, wait, clear,
  hold, reported,
}
use vitals.Rules.{Rule}
use vitals.Text.{Text}

module _ {ℓ} {W : Type ℓ} (f : Float W) where
  -- What a call of `step` did: from `before`, on the subject `id`, to `after`.
  pub record Stepped (id : SubjectId) (rule : Rule W) (label : Text) (value : W) (now tick : ℕ)
      (before after : Out f) : Type ℓ where
    pub report : Report
    pub move : Moves f rule value now (view (lookup id before.0)) (view (lookup id after.0)) report
    pub events : after.1 ≡ before.1 ++ reported f rule label value report
    pub others : (j : SubjectId) → j ≢ id → lookup j after.0 ≡ lookup j before.0
    pub marked : (st : State) → lookup id after.0 ≡ some st → (st.seen ≡ tick) × (st.label ≡ label)

  lookup-insert_self :
      (id : SubjectId) (st : State) (m : States) → lookup id (insert id st m) ≡ some st
  lookup-insert_self id st m = lookup-insert id id st m ∙ ground (arith, subject_beq_iff id id)

  lookup-insert_other :
      (id : SubjectId) (st : State) (m : States) (j : SubjectId)
      → j ≢ id
      → lookup j (insert id st m) ≡ lookup j m
  lookup-insert_other id st m j ne = lookup-insert id j st m ∙ ground (arith, subject_beq_iff id j)

  lookup-remove_self : (id : SubjectId) (m : States) → lookup id (remove id m) ≡ none
  lookup-remove_self id m = lookup-remove id id m ∙ ground (arith, subject_beq_iff id id)

  lookup-remove_other :
      (id : SubjectId) (m : States) (j : SubjectId) → j ≢ id → lookup j (remove id m) ≡ lookup j m
  lookup-remove_other id m j ne = lookup-remove id j m ∙ ground (arith, subject_beq_iff id j)

  module _ (id : SubjectId) (rule : Rule W) (label : Text) (value : W) (now tick : ℕ)
      (out : Out f) where
    -- The subject gets the state `st`, with a report.
    put :
        (st : State) (r : Report) (events : List (Event W))
        → (st.seen ≡ tick) × (st.label ≡ label)
        → events ≡ out.1 ++ reported f rule label value r
        → Moves f rule value now (view (lookup id out.0)) (some (st.phase, st.since)) r
        → Stepped id rule label value now tick out (insert id st out.0, events)
    put st r events mark grown m = record {
      report = r;
      move = rw (lookup-insert_self id st out.0) m;
      events = grown;
      others = lookup-insert_other id st out.0;
      marked = λ s e.
          subst (λ (t : State). (t.seen ≡ tick) × (t.label ≡ label))
            (some-injective _ _ (sym (lookup-insert_self id st out.0) ∙ e)) mark;
    }

    -- The subject's state goes, with a report.
    drop :
        (r : Report) (events : List (Event W))
        → events ≡ out.1 ++ reported f rule label value r
        → Moves f rule value now (view (lookup id out.0)) none r
        → Stepped id rule label value now tick out (remove id out.0, events)
    drop r events grown m = record {
      report = r;
      move = rw (lookup-remove_self id out.0) m;
      events = grown;
      others = lookup-remove_other id out.0;
      marked = λ s e. cc (lookup-remove_self id out.0);
    }

    abbrev entered : Phase → State
    entered phase = record { phase = phase; since = now; seen = tick; label = label }

    no_report : out.1 ≡ out.1 ++ reported f rule label value none
    no_report = sym (append-nil out.1)

    step_none-Stepped :
        lookup id out.0 ≡ none
        → Stepped id rule label value now tick out (step_none f id rule label value now tick out)
    unfolding step_none
    step_none-Stepped e = elim (Bool-cases (breaching f rule value)) [
      | inr calm ↦ rw calm (record {
        report = none;
        move = rw e (stay_idle calm);
        events = no_report;
        others = λ j ne. refl;
        marked = λ s h. cc;
      })
      | inl high ↦ elim (Bool-cases (rule.sustain == 0)) [
        | inl z ↦
            rw (high, z)
              (put (entered firing) (some (fired, 0)) _ (refl, refl) refl
                (rw e (fire_at_once high (ground arith))))
        | inr pos ↦
            rw (high, pos)
              (put (entered pending) none _ (refl, refl) no_report
                (rw e (start_pending high (ground arith))))
      ]
    ]

    step_some-Stepped :
        (st : State) (phase : Phase)
        → (st.seen ≡ tick) × (st.label ≡ label)
        → st.phase ≡ phase
        → view (lookup id out.0) ≡ some (phase, st.since)
        → Stepped id rule label value now tick out
            (step_some f id rule label value now st phase out)
    unfolding step_some
    step_some-Stepped st pending mark p e = elim (Bool-cases (breaching f rule value)) [
      | inr calm ↦ rw calm (drop none _ no_report (rw e (drop_pending calm)))
      | inl high ↦ elim (Bool-cases (leb rule.sustain (now - st.since))) [
        | inl long ↦
            rw (high, long)
              (put (record st { phase = firing; since = now }) (some (fired, now - st.since)) _ mark
                refl (rw e (fire high (leb→le _ _ long))))
        | inr short ↦
            rw (high, short) (put st none _ mark no_report (rw (e, p) (wait high (ground arith))))
      ]
    ]
    step_some-Stepped st firing mark p e = elim (Bool-cases (still_active f rule value)) [
      | inr calm ↦ rw calm (drop (some (cleared, now - st.since)) _ refl (rw e (clear calm)))
      | inl high ↦ rw high (put st none _ mark no_report (rw (e, p) (hold high)))
    ]

    -- On every branch `step` makes one move of the state machine on its subject, appends the events
    -- that the move reports, stamps the subject's state with the tick and the label, and changes no
    -- other subject.
    pub step-Stepped :
        Stepped id rule label value now tick out (step f id rule label value now tick out)
    unfolding step
    step-Stepped = elim (Option-cases (lookup id out.0)) [
      | inl e ↦ rw (e, step) (step_none-Stepped e)
      | inr (st, e) ↦
          rw (e, step)
            (step_some-Stepped (record st { seen = tick; label = label }) st.phase (refl, refl) refl
              (ap view e))
    ]
