-- ===== src/Rules/Evaluate/Observations.antt =====
-- `Engine::evaluate` as one pass over a list: each rule with each value that it takes from the
-- snapshot, in the order of the loops.
use vitals.Delta.{ProcRate, Snapshot}
use vitals.Float.{Float}
use vitals.Prelude.{
  ℕ, suc, ◌≡◌, ◌≢◌, refl, sym, ap, ◌∙◌, inl, inr, List, [], ◌∷◌, ◌++◌, All, to_list, option_map,
  Option-cases,
}
use vitals.Rules.Engine.{SubjectId, Out, step}
use vitals.Rules.Evaluate.{
  system_value, observed, process_id, system_id, process_label, step_process, step_processes,
  step_rule, step_rules,
}
use vitals.Rules.{Rule, Target, system, process}
use vitals.Text.{Text, codes}

-- One call of `step`: on which subject, by which rule, with which label and value.
pub record Observation {ℓ} (W : Type ℓ) : Type ℓ where
  pub id : SubjectId
  pub rule : Rule W
  pub label : Text
  pub value : W

module _ {ℓ} {W : Type ℓ} where
  -- No two observations are of one subject.
  abbrev pub Distinct : List (Observation W) → Type ℓ
  Distinct [] = Unit
  Distinct (o ∷ os) = All (λ (u : Observation W). u.id ≢ o.id) os × Distinct os

  -- No two processes of a snapshot have one key.
  abbrev pub DistinctKeys : List (ProcRate W) → Type ℓ
  DistinctKeys [] = Unit
  DistinctKeys (p ∷ ps) = All (λ (q : ProcRate W). q.key ≢ p.key) ps × DistinctKeys ps

module _ {ℓ} {W : Type ℓ} (f : Float W) where
  abbrev pub of_process : ℕ → Rule W → ProcRate W → List (Observation W)
  of_process ri rule p = to_list (
      option_map
        (λ v. record { id = process_id f ri p; rule = rule; label = process_label f p; value = v })
        (observed f rule p))

  abbrev pub of_processes : ℕ → Rule W → List (ProcRate W) → List (Observation W)
  of_processes ri rule [] = []
  of_processes ri rule (p ∷ ps) = of_process ri rule p ++ of_processes ri rule ps

  abbrev pub of_rule : ℕ → Rule W → Target → Snapshot W → List (Observation W)
  of_rule ri rule system snap = to_list (
      option_map
        (λ v. record { id = system_id f ri; rule = rule; label = codes "system"; value = v })
        (system_value f rule.metric snap.system))
  of_rule ri rule (process p) snap = of_processes ri rule snap.procs

  -- The observations of the rules from number `ri` on.
  abbrev pub observations : ℕ → List (Rule W) → Snapshot W → List (Observation W)
  observations ri [] snap = []
  observations ri (rule ∷ rules) snap =
      of_rule ri rule rule.target snap ++ observations (suc ri) rules snap

  module _ (now tick : ℕ) where
    abbrev pub step_on : Observation W → Out f → Out f
    step_on o out = step f o.id o.rule o.label o.value now tick out

    abbrev pub step_all : List (Observation W) → Out f → Out f
    step_all [] out = out
    step_all (o ∷ os) out = step_all os (step_on o out)

    step_all-append :
        (os us : List (Observation W)) (out : Out f)
        → step_all (os ++ us) out ≡ step_all us (step_all os out)
    step_all-append [] us out = refl
    step_all-append (o ∷ os) us out = step_all-append os us (step_on o out)

    step_process-step_all :
        (ri : ℕ) (rule : Rule W) (p : ProcRate W) (out : Out f)
        → step_process f ri rule now tick p out ≡ step_all (of_process ri rule p) out
    unfolding step_process
    step_process-step_all ri rule p out = elim (Option-cases (observed f rule p)) [
      | inl e ↦ rw (e, step_process)
      | inr (v, e) ↦ rw (e, step_process)
    ]

    step_processes-step_all :
        (ri : ℕ) (rule : Rule W) (ps : List (ProcRate W)) (out : Out f)
        → step_processes f ri rule now tick ps out ≡ step_all (of_processes ri rule ps) out
    unfolding step_processes
    step_processes-step_all ri rule [] out = refl
    step_processes-step_all ri rule (p ∷ ps) out =
        ap (step_processes f ri rule now tick ps) (step_process-step_all ri rule p out)
        ∙ step_processes-step_all ri rule ps (step_all (of_process ri rule p) out)
        ∙ sym (step_all-append (of_process ri rule p) (of_processes ri rule ps) out)

    step_rule-step_all :
        (ri : ℕ) (rule : Rule W) (t : Target) (snap : Snapshot W) (out : Out f)
        → step_rule f ri rule t snap now tick out ≡ step_all (of_rule ri rule t snap) out
    unfolding step_rule
    step_rule-step_all ri rule (process p) snap out = step_processes-step_all ri rule snap.procs out
    step_rule-step_all ri rule system snap out =
        elim (Option-cases (system_value f rule.metric snap.system)) [
          | inl e ↦ rw (e, step_rule)
          | inr (v, e) ↦ rw (e, step_rule)
        ]

    -- The loops of `evaluate` step through the observations, in order.
    pub step_rules-step_all :
        (ri : ℕ) (rules : List (Rule W)) (snap : Snapshot W) (out : Out f)
        → step_rules f ri rules snap now tick out ≡ step_all (observations ri rules snap) out
    unfolding step_rules
    step_rules-step_all ri [] snap out = refl
    step_rules-step_all ri (rule ∷ rules) snap out =
        ap (step_rules f (suc ri) rules snap now tick)
          (step_rule-step_all ri rule rule.target snap out)
        ∙ step_rules-step_all (suc ri) rules snap (step_all (of_rule ri rule rule.target snap) out)
        ∙ sym (
            step_all-append (of_rule ri rule rule.target snap) (observations (suc ri) rules snap)
              out)
