-- ===== src/Rules/Evaluate/Find.antt =====
-- The observation of a subject among those of one evaluation, and the rule it is by.
use mathlib.Core.Option.{some-injective}
use vitals.Delta.{ProcRate, Snapshot}
use vitals.Float.{Float}
use vitals.Prelude.{
  ℕ, suc, ◌-◌, ◌≤◌, ◌≡◌, ◌≢◌, refl, sym, ap, subst, Option, none, some, List, [], ◌∷◌, arith, All,
  All-map, All-append, inl, inr, Bool-cases, Option-cases, get_elem?, if◌then◌else◌,
}
use vitals.Rules.Engine.{SubjectId, subject_eq, subject_beq, subject_beq_iff}
use vitals.Rules.Evaluate.Observations.{
  Observation, observations, of_rule, of_processes, of_process,
}
use vitals.Rules.Evaluate.Subjects.Separate.{of_rule-rule, observations-rule}
use vitals.Rules.Evaluate.{observed, system_value}
use vitals.Rules.{Rule, Target, system, process}

module _ {ℓ} {W : Type ℓ} where
  -- The observation of a subject among these.
  abbrev pub find : SubjectId → List (Observation W) → Option (Observation W)
  find j [] = none
  find j (o ∷ os) = if subject_beq o.id j then some o else find j os

  pub find-none :
      (j : SubjectId) (os : List (Observation W))
      → find j os ≡ none
      → All (λ (o : Observation W). o.id ≢ j) os
  find-none j [] h = tt
  find-none j (o ∷ os) h = elim (Bool-cases (subject_beq o.id j)) [
    | inl same ↦ absurd (ground (arith, same, h))
    | inr other ↦
        ((λ e. ground (arith, (subject_beq_iff o.id j).1 e, other)), find-none j os (rw other at h))
  ]

  pub find-some {μ} :
      (P : Observation W → Type μ) (j : SubjectId) (os : List (Observation W)) {o : Observation W}
      → All P os
      → find j os ≡ some o
      → (o.id ≡ j) × P o
  find-some P j [] all h = cc
  find-some P j (u ∷ os) {o} all h = elim (Bool-cases (subject_beq u.id j)) [
    | inl same ↦
        let e : u ≡ o = some-injective _ _ (rw same at h) in
        subst (λ x. (x.id ≡ j) × P x) e ((subject_beq_iff u.id j).0 same, all.0)
    | inr other ↦ find-some P j os all.1 (rw other at h)
  ]

pub All-both {ℓ κ μ} :
    {A : Type ℓ} (P : A → Type κ) (Q : A → Type μ) (xs : List A)
    → All P xs
    → All Q xs
    → All (λ x. P x × Q x) xs
All-both P Q [] p q = tt
All-both P Q (x ∷ xs) p q = ((p.0, q.0), All-both P Q xs p.1 q.1)

module _ {ℓ} {W : Type ℓ} (f : Float W) where
  pub of_rule-by :
      (ri : ℕ) (rule : Rule W) (t : Target) (snap : Snapshot W)
      → All (λ (o : Observation W). o.rule ≡ rule) (of_rule f ri rule t snap)
  of_rule-by ri rule system snap = elim (Option-cases (system_value f rule.metric snap.system)) [
    | inl e ↦ rw e tt
    | inr (v, e) ↦ rw e (refl, tt)
  ]
  of_rule-by ri rule (process p) snap = go snap.procs
    where
      go :
          (ps : List (ProcRate W))
          → All (λ (o : Observation W). o.rule ≡ rule) (of_processes f ri rule ps)
      go [] = tt
      go (p ∷ ps) =
          All-append (λ (o : Observation W). o.rule ≡ rule) (of_process f ri rule p)
            (of_processes f ri rule ps)
            (elim (Option-cases (observed f rule p)) [
              | inl e ↦ rw e tt
              | inr (v, e) ↦ rw e (refl, tt)
            ])
            (go ps)

  -- An observation is by the rule that its subject names.
  pub observations-by :
      (ri : ℕ) (rules : List (Rule W)) (snap : Snapshot W)
      → All
          (λ (o : Observation W). get_elem? rules (o.id.rule - ri) ≡ some o.rule)
          (observations f ri rules snap)
  observations-by ri [] snap = tt
  observations-by ri (rule ∷ rules) snap =
      All-append (λ (o : Observation W). get_elem? (rule ∷ rules) (o.id.rule - ri) ≡ some o.rule)
        (of_rule f ri rule rule.target snap) (observations f (suc ri) rules snap)
        (All-map (of_rule f ri rule rule.target snap) (λ o h. here o h.0 h.1)
          (All-both (λ (o : Observation W). o.id.rule ≡ ri) (λ (o : Observation W). o.rule ≡ rule)
            (of_rule f ri rule rule.target snap) (of_rule-rule f ri rule rule.target snap)
            (of_rule-by ri rule rule.target snap)))
        (All-map (observations f (suc ri) rules snap) (λ o h. later o h.0 h.1)
          (All-both (λ (o : Observation W). suc ri ≤ o.id.rule)
            (λ (o : Observation W). get_elem? rules (o.id.rule - suc ri) ≡ some o.rule)
            (observations f (suc ri) rules snap) (observations-rule f (suc ri) rules snap)
            (observations-by (suc ri) rules snap)))
    where
      here :
          (o : Observation W)
          → o.id.rule ≡ ri
          → o.rule ≡ rule
          → get_elem? (rule ∷ rules) (o.id.rule - ri) ≡ some o.rule
      here o e by = let z : o.id.rule - ri ≡ 0 = omega arith in rw z (ap some (sym by))

      later :
          (o : Observation W)
          → suc ri ≤ o.id.rule
          → get_elem? rules (o.id.rule - suc ri) ≡ some o.rule
          → get_elem? (rule ∷ rules) (o.id.rule - ri) ≡ some o.rule
      later o le by = let z : o.id.rule - ri ≡ suc (o.id.rule - suc ri) = omega arith in rw z by
