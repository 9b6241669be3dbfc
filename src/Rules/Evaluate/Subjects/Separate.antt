-- ===== src/Rules/Evaluate/Subjects/Separate.antt =====
-- The subjects and the rules of the observations of one evaluation.
use vitals.Delta.{ProcRate, Snapshot}
use vitals.Float.{Float}
use vitals.Prelude.{
  ℕ, suc, ◌≤◌, ◌<◌, ◌≡◌, ◌≢◌, refl, sym, ap, ◌∙◌, inl, inr, List, [], ◌∷◌, ◌++◌, arith, All,
  All-append, All-map, Option-cases, subst, length, ◌+◌,
}
use vitals.Rules.Engine.{SubjectId}
use vitals.Rules.Evaluate.Observations.{
  Observation, Distinct, DistinctKeys, of_process, of_processes, of_rule, observations,
}
use vitals.Rules.Evaluate.{observed, system_value, process_id}
use vitals.Rules.{Rule, Target, system, process}

module _ {ℓ} {W : Type ℓ} where
  abbrev Apart : Observation W → Observation W → Type 0
  Apart o u = u.id ≢ o.id

  Distinct-append :
      (os us : List (Observation W))
      → Distinct os
      → Distinct us
      → All (λ o. All (Apart o) us) os
      → Distinct (os ++ us)
  Distinct-append [] us d d' apart = d'
  Distinct-append (o ∷ os) us d d' apart =
      (All-append (Apart o) os us d.0 apart.0, Distinct-append os us d.1 d' apart.1)

module _ {ℓ} {W : Type ℓ} (f : Float W) where
  -- Every observation of a process stands under its key.
  pub of_process-key :
      (ri : ℕ) (rule : Rule W) (p : ProcRate W)
      → All (λ (o : Observation W). o.id ≡ process_id f ri p) (of_process f ri rule p)
  of_process-key ri rule p = elim (Option-cases (observed f rule p)) [
    | inl e ↦ rw e tt
    | inr (v, e) ↦ rw e (refl, tt)
  ]

  of_process-Distinct :
      (ri : ℕ) (rule : Rule W) (p : ProcRate W) → Distinct (of_process f ri rule p)
  of_process-Distinct ri rule p = elim (Option-cases (observed f rule p)) [
    | inl e ↦ rw e tt
    | inr (v, e) ↦ rw e (tt, tt)
  ]

  of_processes-apart :
      (ri : ℕ) (rule : Rule W) (p : ProcRate W) (ps : List (ProcRate W))
      → All (λ (q : ProcRate W). q.key ≢ p.key) ps
      → All (λ (u : Observation W). u.id ≢ process_id f ri p) (of_processes f ri rule ps)
  of_processes-apart ri rule p [] all = tt
  of_processes-apart ri rule p (q ∷ ps) all =
      All-append _ (of_process f ri rule q) (of_processes f ri rule ps)
        (All-map (of_process f ri rule q) (λ u e h. all.0 (other u e h)) (of_process-key ri rule q))
        (of_processes-apart ri rule p ps all.1)
    where
      other :
          (u : Observation W) → u.id ≡ process_id f ri q → u.id ≡ process_id f ri p → q.key ≡ p.key
      other u e h = ground (arith, sym e ∙ h)

  of_processes-Distinct :
      (ri : ℕ) (rule : Rule W) (ps : List (ProcRate W))
      → DistinctKeys ps
      → Distinct (of_processes f ri rule ps)
  of_processes-Distinct ri rule [] d = tt
  of_processes-Distinct ri rule (p ∷ ps) d =
      Distinct-append (of_process f ri rule p) (of_processes f ri rule ps)
        (of_process-Distinct ri rule p) (of_processes-Distinct ri rule ps d.1)
        (All-map (of_process f ri rule p)
          (λ o e.
            subst (λ i. All (λ (u : Observation W). u.id ≢ i) (of_processes f ri rule ps)) (sym e)
              (of_processes-apart ri rule p ps d.0))
          (of_process-key ri rule p))

  of_processes-rule :
      (ri : ℕ) (rule : Rule W) (ps : List (ProcRate W))
      → All (λ (o : Observation W). o.id.rule ≡ ri) (of_processes f ri rule ps)
  of_processes-rule ri rule [] = tt
  of_processes-rule ri rule (p ∷ ps) =
      All-append _ (of_process f ri rule p) (of_processes f ri rule ps)
        (All-map (of_process f ri rule p) (λ o e. ap (λ (i : SubjectId). i.rule) e)
          (of_process-key ri rule p))
        (of_processes-rule ri rule ps)

  pub of_rule-rule :
      (ri : ℕ) (rule : Rule W) (t : Target) (snap : Snapshot W)
      → All (λ (o : Observation W). o.id.rule ≡ ri) (of_rule f ri rule t snap)
  of_rule-rule ri rule (process p) snap = of_processes-rule ri rule snap.procs
  of_rule-rule ri rule system snap = elim (Option-cases (system_value f rule.metric snap.system)) [
    | inl e ↦ rw e tt
    | inr (v, e) ↦ rw e (refl, tt)
  ]

  of_rule-Distinct :
      (ri : ℕ) (rule : Rule W) (t : Target) (snap : Snapshot W)
      → DistinctKeys snap.procs
      → Distinct (of_rule f ri rule t snap)
  of_rule-Distinct ri rule (process p) snap d = of_processes-Distinct ri rule snap.procs d
  of_rule-Distinct ri rule system snap d =
      elim (Option-cases (system_value f rule.metric snap.system)) [
        | inl e ↦ rw e tt
        | inr (v, e) ↦ rw e (tt, tt)
      ]

  pub observations-rule :
      (ri : ℕ) (rules : List (Rule W)) (snap : Snapshot W)
      → All (λ (o : Observation W). ri ≤ o.id.rule) (observations f ri rules snap)
  observations-rule ri [] snap = tt
  observations-rule ri (rule ∷ rules) snap =
      All-append _ (of_rule f ri rule rule.target snap) (observations f (suc ri) rules snap)
        (All-map (of_rule f ri rule rule.target snap) (λ o e. omega arith)
          (of_rule-rule ri rule rule.target snap))
        (All-map (observations f (suc ri) rules snap) (λ o e. omega arith)
          (observations-rule (suc ri) rules snap))

  observations_below :
      (ri n : ℕ) (rules : List (Rule W)) (snap : Snapshot W)
      → ri + length rules ≤ n
      → All (λ (o : Observation W). o.id.rule < n) (observations f ri rules snap)
  observations_below ri n [] snap h = tt
  observations_below ri n (rule ∷ rules) snap h =
      All-append _ (of_rule f ri rule rule.target snap) (observations f (suc ri) rules snap)
        (All-map (of_rule f ri rule rule.target snap) (λ o e. omega arith)
          (of_rule-rule ri rule rule.target snap))
        (observations_below (suc ri) n rules snap (omega arith))

  -- Every observation is by a rule that there is.
  pub observations-range :
      (rules : List (Rule W)) (snap : Snapshot W)
      → All (λ (o : Observation W). o.id.rule < length rules) (observations f 0 rules snap)
  observations-range rules snap = observations_below 0 (length rules) rules snap (omega arith)

  -- The processes of a snapshot have different keys, so no subject is observed twice.
  pub observations-Distinct :
      (ri : ℕ) (rules : List (Rule W)) (snap : Snapshot W)
      → DistinctKeys snap.procs
      → Distinct (observations f ri rules snap)
  observations-Distinct ri [] snap d = tt
  observations-Distinct ri (rule ∷ rules) snap d =
      Distinct-append (of_rule f ri rule rule.target snap) (observations f (suc ri) rules snap)
        (of_rule-Distinct ri rule rule.target snap d) (observations-Distinct (suc ri) rules snap d)
        (All-map (of_rule f ri rule rule.target snap)
          (λ o e.
            All-map (observations f (suc ri) rules snap) (λ u le same. later o u e le same)
              (observations-rule (suc ri) rules snap))
          (of_rule-rule ri rule rule.target snap))
    where
      later : (o u : Observation W) → o.id.rule ≡ ri → suc ri ≤ u.id.rule → u.id ≡ o.id → ⊥
      later o u e le same = let r = ap (λ (i : SubjectId). i.rule) same in omega arith
