-- ===== src/Rules/Evaluate/Invariant.antt =====
-- The invariant of `Engine`: one state to a subject, each seen at the last tick, and each of a rule
-- that there is.
use vitals.Delta.{Snapshot}
use vitals.Float.{Float}
use vitals.Prelude.{
  ℕ, ◌-◌, ◌<◌, ◌≡◌, inl, inr, Bool, List, [], ◌∷◌, All, All-map, length, lookup, insert, remove,
  Unique, filter, leb, insert-Unique, remove-Unique, insert-All, remove-All, filter-Unique,
  filter-All, Bool-cases, Option-cases, ◌==◌, ==_iff, add_word,
}
use vitals.Rules.Engine.{
  SubjectId, subject_eq, State, States, Phase, pending, firing, Engine, Out, new, step, step_none,
  step_some, breaching, still_active,
}
use vitals.Rules.Evaluate.Observations.{
  Observation, observations, step_on, step_all, step_rules-step_all,
}
use vitals.Rules.Evaluate.Subjects.Separate.{observations-range}
use vitals.Rules.Evaluate.{evaluate, is_seen, step_rules}
use vitals.Rules.{Rule}
use vitals.Text.{Text}

module _ {ℓ} {W : Type ℓ} (f : Float W) where
  module _ {κ} (P : States → Type κ) (id : SubjectId) (rule : Rule W) (label : Text) (value : W)
      (now tick : ℕ) (out : Out f) (same : P out.0) (put : (st : State) → P (insert id st out.0))
      (drop : P (remove id out.0)) where
    step_none_keeps : P (step_none f id rule label value now tick out).0
    unfolding step_none
    step_none_keeps = elim (Bool-cases (breaching f rule value)) [
      | inr calm ↦ rw calm same
      | inl high ↦ elim (Bool-cases (rule.sustain == 0)) [
        | inl z ↦ rw (high, z) (put _)
        | inr pos ↦ rw (high, pos) (put _)
      ]
    ]

    step_some_keeps :
        (st : State) (phase : Phase) → P (step_some f id rule label value now st phase out).0
    unfolding step_some
    step_some_keeps st pending = elim (Bool-cases (breaching f rule value)) [
      | inr calm ↦ rw calm drop
      | inl high ↦ elim (Bool-cases (leb rule.sustain (now - st.since))) [
        | inl long ↦ rw (high, long) (put _)
        | inr short ↦ rw (high, short) (put _)
      ]
    ]
    step_some_keeps st firing = elim (Bool-cases (still_active f rule value)) [
      | inr calm ↦ rw calm drop
      | inl high ↦ rw high (put _)
    ]

    -- What a write of the subject's state and its removal keep, `step` keeps.
    pub step_keeps : P (step f id rule label value now tick out).0
    unfolding step
    step_keeps = elim (Option-cases (lookup id out.0)) [
      | inl e ↦ rw (e, step) step_none_keeps
      | inr (st, e) ↦ rw (e, step) (step_some_keeps _ st.phase)
    ]

  pub step_all-Unique :
      (now tick : ℕ) (os : List (Observation W)) (out : Out f)
      → Unique out.0
      → Unique (step_all f now tick os out).0
  step_all-Unique now tick [] out u = u
  step_all-Unique now tick (o ∷ os) out u = step_all-Unique now tick os (step_on f now tick o out) (
      step_keeps Unique o.id o.rule o.label o.value now tick out u
        (λ st. insert-Unique o.id st out.0 u) (remove-Unique o.id out.0 u))

  -- The rule of a subject is one of the first `n`.
  abbrev pub InRange : ℕ → SubjectId × State → Type 0
  InRange n s = s.0.rule < n

  pub step_all-InRange :
      (now tick n : ℕ) (os : List (Observation W)) (out : Out f)
      → All (λ (o : Observation W). o.id.rule < n) os
      → All (InRange n) out.0
      → All (InRange n) (step_all f now tick os out).0
  step_all-InRange now tick n [] out all u = u
  step_all-InRange now tick n (o ∷ os) out all u =
      step_all-InRange now tick n os (step_on f now tick o out) all.1 (
        step_keeps (All (InRange n)) o.id o.rule o.label o.value now tick out u
          (λ st. insert-All (InRange n) o.id st out.0 all.0 u)
          (remove-All (InRange n) o.id out.0 u))

  pub record IsValid (e : Engine W) : Type 0 where
    pub unique : Unique e.states
    pub ticked : All (λ (s : SubjectId × State). s.1.seen ≡ e.tick) e.states
    pub in_range : All (InRange (length e.rules)) e.states

  -- A new engine is valid.
  pub new-IsValid : (rules : List (Rule W)) → IsValid (new f rules)
  unfolding new
  new-IsValid rules = record { unique = tt; ticked = tt; in_range = tt }

  filter_All {κ} :
      {A : Type κ} (P : A → Type 0) (p : A → Bool) (m : List A) → All P m → All P (filter p m)
  filter_All P p [] all = tt
  filter_All P p (x ∷ m) all = elim (Bool-cases (p x)) [
    | inl stays ↦ rw stays (all.0, filter_All P p m all.1)
    | inr goes ↦ rw goes (filter_All P p m all.1)
  ]

  -- `evaluate` keeps the invariant, whatever the snapshot holds: one state to a subject, each state
  -- seen at this tick, and each of a rule that there is.
  pub evaluate-IsValid :
      (e : Engine W) (snap : Snapshot W) (now : ℕ) → IsValid e → IsValid (evaluate f e snap now).1
  unfolding evaluate
  evaluate-IsValid e snap now v =
      let tick = add_word e.tick 1 in
      let os = observations f 0 e.rules snap in
      let run = step_rules-step_all f now tick 0 e.rules snap (e.states, []) in
      let u = step_all-Unique now tick os (e.states, []) v.unique in
      let r =
        step_all-InRange now tick (length e.rules) os (e.states, [])
          (observations-range f e.rules snap) v.in_range in
      let u' : Unique (step_rules f 0 e.rules snap now tick (e.states, [])).0 = rw run u in
      let r' : All (InRange (length e.rules))
          (step_rules f 0 e.rules snap now tick (e.states, [])).0 =
        rw run r in
      record {
        unique = filter-Unique (is_seen f tick) _ u';
        ticked =
            All-map _ (λ s seen. (==_iff s.1.seen tick).0 seen) (filter-All (is_seen f tick) _);
        in_range = filter_All (InRange (length e.rules)) (is_seen f tick) _ r';
      }
