-- ===== src/Rules/Evaluate/Unread.antt =====
-- About a process that is still there, but whose counter can no longer be read.
use mathlib.Core.Option.{some-injective}
use vitals.Delta.{ProcRate, Snapshot}
use vitals.Float.{Float}
use vitals.Prelude.{
  ℕ, zero, suc, ◌+◌, ◌≤◌, ◌≡◌, ◌≢◌, inl, inr, sym, ap, ◌∙◌, none, some, List, [], ◌∷◌, ◌++◌, arith,
  All, All-map, All-append, All-get_elem?, Option-cases, subst, lookup, get_elem?,
}
use vitals.Rules.Engine.{SubjectId, subject_eq, State, firing, Engine}
use vitals.Rules.Evaluate.Gone.{Reported, evaluate-Reported}
use vitals.Rules.Evaluate.Invariant.{IsValid}
use vitals.Rules.Evaluate.Observations.{
  Observation, DistinctKeys, observations, of_rule, of_processes, of_process,
}
use vitals.Rules.Evaluate.Subjects.Separate.{of_rule-rule, of_process-key, observations-rule}
use vitals.Rules.Evaluate.{observed, process_value, process_id, system_value}
use vitals.Rules.{Rule, Target, system, process}

module _ {ℓ} {W : Type ℓ} (f : Float W) where
  observed-none :
      (rule : Rule W) (p : ProcRate W)
      → process_value f rule.metric p ≡ none
      → observed f rule p ≡ none
  unfolding observed
  observed-none rule p h = rw h (ground arith)

  key_of :
      (ri : ℕ) (p q : ProcRate W) (u : Observation W)
      → u.id ≡ process_id f ri q
      → u.id ≡ process_id f ri p
      → q.key ≡ p.key
  key_of ri p q u e h = ground (arith, sym e ∙ h)

  module _ (ri : ℕ) (rule : Rule W) (p : ProcRate W) (skipped : observed f rule p ≡ none) where
    abbrev NotOf : Observation W → Type 0
    NotOf o = o.id ≢ process_id f ri p

    others_not :
        (qs : List (ProcRate W))
        → All (λ (q : ProcRate W). q.key ≢ p.key) qs
        → All NotOf (of_processes f ri rule qs)
    others_not [] all = tt
    others_not (q ∷ qs) all =
        All-append NotOf (of_process f ri rule q) (of_processes f ri rule qs)
          (All-map (of_process f ri rule q) (λ u e h. all.0 (key_of ri p q u e h))
            (of_process-key f ri rule q))
          (others_not qs all.1)

    processes_not :
        (qs : List (ProcRate W)) (n : ℕ)
        → get_elem? qs n ≡ some p
        → DistinctKeys qs
        → All NotOf (of_processes f ri rule qs)
    processes_not [] n h d = cc
    processes_not (q ∷ qs) zero h d =
        let z : q ≡ p = some-injective _ _ h in
        subst (λ x. All NotOf (of_process f ri rule x ++ of_processes f ri rule qs)) (sym z)
          (rw skipped
            (others_not qs (subst (λ x. All (λ (r : ProcRate W). r.key ≢ x.key) qs) z d.0)))
    processes_not (q ∷ qs) (suc n) h d =
        let other = All-get_elem? (λ (r : ProcRate W). r.key ≢ q.key) qs n d.0 h in
        All-append NotOf (of_process f ri rule q) (of_processes f ri rule qs)
          (All-map (of_process f ri rule q) (λ u e same. other (sym (key_of ri p q u e same)))
            (of_process-key f ri rule q))
          (processes_not qs n h d.1)

    rule_not :
        (t : Target) (snap : Snapshot W) (n : ℕ)
        → get_elem? snap.procs n ≡ some p
        → DistinctKeys snap.procs
        → All NotOf (of_rule f ri rule t snap)
    rule_not (process _) snap n h d = processes_not snap.procs n h d
    rule_not system snap n h d = elim (Option-cases (system_value f rule.metric snap.system)) [
      | inl e ↦ rw e tt
      | inr (v, e) ↦ rw e ((λ same. ground (arith, same)), tt)
    ]

    rules_not :
        (base i : ℕ) (rules : List (Rule W)) (snap : Snapshot W) (n : ℕ)
        → base + i ≡ ri
        → get_elem? rules i ≡ some rule
        → get_elem? snap.procs n ≡ some p
        → DistinctKeys snap.procs
        → All NotOf (observations f base rules snap)
    rules_not base i [] snap n b r h d = cc
    rules_not base zero (r' ∷ rules) snap n b r h d =
        let z : r' ≡ rule = some-injective _ _ r in
        let y : ri ≡ base = omega arith in
        All-append NotOf (of_rule f base r' r'.target snap) (observations f (suc base) rules snap)
          (subst (λ x. All NotOf (of_rule f base x x.target snap)) (sym z)
            (subst (λ k. All NotOf (of_rule f k rule rule.target snap)) y
              (rule_not rule.target snap n h d)))
          (All-map (observations f (suc base) rules snap)
            (λ o le same. later o le (ap (λ (id : SubjectId). id.rule) same))
            (observations-rule f (suc base) rules snap))
      where
        later : (o : Observation W) → suc base ≤ o.id.rule → o.id.rule ≡ ri → ⊥
        later o le e = omega arith
    rules_not base (suc i) (r' ∷ rules) snap n b r h d =
        All-append NotOf (of_rule f base r' r'.target snap) (observations f (suc base) rules snap)
          (All-map (of_rule f base r' r'.target snap)
            (λ o e same. sooner o e (ap (λ (id : SubjectId). id.rule) same))
            (of_rule-rule f base r' r'.target snap))
          (rules_not (suc base) i rules snap n (omega arith) r h d)
      where
        sooner : (o : Observation W) → o.id.rule ≡ base → o.id.rule ≡ ri → ⊥
        sooner o e e' = omega arith

  -- In a valid engine, and over processes with different keys, the alert that is on of a process
  -- that the snapshot does show, but whose counter cannot be read any more, is dropped and reported
  -- as `ClearedGone`.
  pub unread-Reported :
      (e : Engine W) (snap : Snapshot W) (now ri n : ℕ) {rule : Rule W} {p : ProcRate W}
      {st : State}
      → IsValid f e
      → DistinctKeys snap.procs
      → get_elem? e.rules ri ≡ some rule
      → get_elem? snap.procs n ≡ some p
      → process_value f rule.metric p ≡ none
      → lookup (process_id f ri p) e.states ≡ some st
      → st.phase ≡ firing
      → Reported f e snap now (process_id f ri p) st
  unread-Reported e snap now ri n {rule} {p} {st} v d ruled there unread h on =
      evaluate-Reported f e snap now (process_id f ri p) st v d h on (
        rules_not ri rule p (observed-none rule p unread) 0 ri e.rules snap n (omega arith) ruled
          there d)
