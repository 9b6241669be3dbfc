-- ===== src/Rules/Evaluate/Sources.antt =====
-- Where the observations of one evaluation come from, spelled out on the snapshot.
use vitals.Delta.{ProcRate, Snapshot}
use vitals.Float.{Float}
use vitals.Prelude.{
  ℕ, suc, ◌≡◌, ◌≢◌, refl, sym, ◌∙◌, none, some, List, [], ◌∷◌, ◌++◌, All, All-map, All-append,
  append_assoc, inl, inr, Bool-cases, Option-cases,
}
use vitals.Rules.Engine.{SubjectId, subject_eq, subject_beq, subject_beq_iff}
use vitals.Rules.Evaluate.Find.{find, All-both}
use vitals.Rules.Evaluate.Observations.{
  Observation, Distinct, observations, of_rule, of_processes, of_process,
}
use vitals.Rules.Evaluate.{observed, system_value, process_label}
use vitals.Rules.{Rule, Target, system, process}
use vitals.Text.Number.{display_int}
use vitals.Text.{Text, codes}

module _ {ℓ} {W : Type ℓ} (f : Float W) (snap : Snapshot W) where
  -- This subject, shown by this name, has this value in the snapshot: the system by the rule's metric,
  -- or a process of the table under its key, by its name and pid.
  pub data Source (id : SubjectId) (rule : Rule W) (subject : Text) (value : W) : Type ℓ where
    by_system :
        rule.target ≡ system
        → id.proc_key ≡ none
        → subject ≡ codes "system"
        → system_value f rule.metric snap.system ≡ some value
        → Source id rule subject value
    by_row :
        (pattern : Text) (before : List (ProcRate W)) (p : ProcRate W) (after : List (ProcRate W))
        → rule.target ≡ process pattern
        → snap.procs ≡ before ++ p ∷ after
        → id.proc_key ≡ some p.key
        → subject ≡ p.comm ++ (codes " (pid " ++ (display_int p.pid ++ codes ")"))
        → observed f rule p ≡ some value
        → Source id rule subject value

  abbrev pub HasSource : Observation W → Type ℓ
  HasSource o = Source o.id o.rule o.label o.value

  of_processes-HasSource :
      (ri : ℕ) (rule : Rule W) (pattern : Text) (before ps : List (ProcRate W))
      → rule.target ≡ process pattern
      → snap.procs ≡ before ++ ps
      → All HasSource (of_processes f ri rule ps)
  of_processes-HasSource ri rule pattern before [] t e = tt
  of_processes-HasSource ri rule pattern before (p ∷ ps) t e =
      All-append HasSource (of_process f ri rule p) (of_processes f ri rule ps)
        (elim (Option-cases (observed f rule p)) [
          | inl none' ↦ rw none' tt
          | inr (v, some') ↦
              rw some'
                (by_row pattern before p ps t e refl (unfold process_label in refl) some', tt)
        ])
        (of_processes-HasSource ri rule pattern (before ++ p ∷ []) ps t
          (e ∙ sym (append_assoc before (p ∷ []) ps)))

  of_rule-HasSource :
      (ri : ℕ) (rule : Rule W) (t : Target)
      → rule.target ≡ t
      → All HasSource (of_rule f ri rule t snap)
  of_rule-HasSource ri rule (process p) e = of_processes-HasSource ri rule p [] snap.procs e refl
  of_rule-HasSource ri rule system e =
      elim (Option-cases (system_value f rule.metric snap.system)) [
        | inl none' ↦ rw none' tt
        | inr (v, some') ↦ rw some' (by_system e refl refl some', tt)
      ]

  pub observations-HasSource :
      (ri : ℕ) (rules : List (Rule W)) → All HasSource (observations f ri rules snap)
  observations-HasSource ri [] = tt
  observations-HasSource ri (rule ∷ rules) =
      All-append HasSource (of_rule f ri rule rule.target snap) (observations f (suc ri) rules snap)
        (of_rule-HasSource ri rule rule.target refl) (observations-HasSource (suc ri) rules)

module _ {ℓ} {W : Type ℓ} where
  -- Among observations of different subjects, the search by a subject finds its observation.
  pub find-Distinct :
      (os : List (Observation W))
      → Distinct os
      → All (λ (o : Observation W). find o.id os ≡ some o) os
  find-Distinct [] d = tt
  find-Distinct (o ∷ os) (apart, d) = (
    rw ((subject_beq_iff o.id o.id).1 refl) refl,
    All-map os (λ u h. other u h.0 h.1)
        (All-both (λ (u : Observation W). u.id ≢ o.id)
          (λ (u : Observation W). find u.id os ≡ some u) os apart (find-Distinct os d)),
  )
    where
      other :
          (u : Observation W) → u.id ≢ o.id → find u.id os ≡ some u → find u.id (o ∷ os) ≡ some u
      other u ne h = elim (Bool-cases (subject_beq o.id u.id)) [
        | inl same ↦ absurd (ne (sym ((subject_beq_iff o.id u.id).0 same)))
        | inr differ ↦ rw differ h
      ]
