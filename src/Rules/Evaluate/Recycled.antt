-- ===== src/Rules/Evaluate/Recycled.antt =====
-- The engine on what `diff` makes of two samples: the keys of its rows, and processes whose key the
-- previous sample does not have, such as those with a reused pid.
use mathlib.Core.List.Permᴰ
use mathlib.Core.List.{Permᴰ}
use vitals.Delta.Order.{row, diff-perm}
use vitals.Delta.{ProcRate, Snapshot, diff, proc_rate}
use vitals.Float.{Float}
use vitals.Prelude.Sorted.{Permᴰ-All}
use vitals.Prelude.{
  ℕ, suc, ◌≡◌, ◌≢◌, refl, sym, ap, ◌∙◌, subst, true, false, none, some, List, [], ◌∷◌, map, arith,
  All, All-map, All-append, inl, inr, Bool-cases, Option-cases, lookup, Unique, is_none,
}
use vitals.Procfs.{ProcKey, key_eq}
use vitals.Rules.Engine.{subject_eq, Engine}
use vitals.Rules.Evaluate.Invariant.{IsValid}
use vitals.Rules.Evaluate.Observations.{
  Observation, DistinctKeys, of_process, of_processes, of_rule, observations,
}
use vitals.Rules.Evaluate.Subjects.Separate.{of_process-key}
use vitals.Rules.Evaluate.Subjects.{evaluate-Evaluated}
use vitals.Rules.Evaluate.{evaluate, observed, process_id, system_value}
use vitals.Rules.{Rule, Target, system, process}
use vitals.Sample.{Sample, ProcSample}
use vitals.Units.{SysConst}

module _ {ℓ} {W : Type ℓ} where
  DistinctKeys-perm : {ps qs : List (ProcRate W)} → Permᴰ ps qs → DistinctKeys ps → DistinctKeys qs
  DistinctKeys-perm Permᴰ.nil d = d
  DistinctKeys-perm (Permᴰ.cons {b = b} {l₂ = l} e p) d = (
    subst (λ x. All (λ (q : ProcRate W). q.key ≢ x.key) l) e (Permᴰ-All _ p d.0),
    DistinctKeys-perm p d.1,
  )
  DistinctKeys-perm (Permᴰ.swap {l = l} e₁ e₂) d = (
    (
      (λ same.
          d.0.0 (
            ap (λ (x : ProcRate W). x.key) e₂
            ∙ sym same
            ∙ ap (λ (x : ProcRate W). x.key) (sym e₁))),
      subst (λ x. All (λ (q : ProcRate W). q.key ≢ x.key) l) e₂ d.1.0,
    ),
    (subst (λ x. All (λ (q : ProcRate W). q.key ≢ x.key) l) e₁ d.0.1, d.1.1),
  )
  DistinctKeys-perm (Permᴰ.trans p q) d = DistinctKeys-perm q (DistinctKeys-perm p d)

  -- A row says that it is new exactly if the previous sample does not have its key.
  abbrev IsRow : Sample → ProcRate W → Type 0
  IsRow prev p = p.is_new ≡ is_none (lookup p.key prev.procs)

module _ {ℓ} {W : Type ℓ} (f : Float W) where
  module _ (sys : SysConst) (prev cur : Sample) where
    rows_apart :
        (k : ProcKey) (ps : List (ProcKey × ProcSample))
        → lookup k ps ≡ none
        → All (λ (q : ProcRate W). q.key ≢ k) (map (row f sys prev cur) ps)
    unfolding lookup proc_rate
    rows_apart k [] h = tt
    rows_apart k ((j, c) ∷ ps) h = elim (Bool-cases (key_eq.beq j k)) [
      | inl same ↦ cc
      | inr other ↦
          ((λ e. ground (arith, (key_eq.beq_iff j k).1 e, other)), rows_apart k ps (rw other at h))
    ]

    rows-DistinctKeys :
        (ps : List (ProcKey × ProcSample)) → Unique ps → DistinctKeys (map (row f sys prev cur) ps)
    rows-DistinctKeys [] u = tt
    rows-DistinctKeys ((k, c) ∷ ps) (fresh, u) =
        (unfold proc_rate in rows_apart k ps fresh, rows-DistinctKeys ps u)

    -- A sample whose table has no key twice gives a snapshot whose rows have different keys.
    pub diff-DistinctKeys : Unique cur.procs → DistinctKeys (diff f sys prev cur).procs
    diff-DistinctKeys u =
        DistinctKeys-perm (Permᴰ.symm (diff-perm f sys prev cur)) (rows-DistinctKeys cur.procs u)

    rows-IsRow : (ps : List (ProcKey × ProcSample)) → All (IsRow prev) (map (row f sys prev cur) ps)
    rows-IsRow [] = tt
    rows-IsRow (p ∷ ps) = (unfold proc_rate in refl, rows-IsRow ps)

    diff-IsRow : All (IsRow prev) (diff f sys prev cur).procs
    diff-IsRow =
        Permᴰ-All (IsRow prev) (Permᴰ.symm (diff-perm f sys prev cur)) (rows-IsRow cur.procs)

  observed_new : (rule : Rule W) (p : ProcRate W) → p.is_new ≡ true → observed f rule p ≡ none
  unfolding observed
  observed_new rule p h = rw h (ground arith)

  module _ (ri : ℕ) (key : ProcKey) (prev : Sample) (fresh : lookup key prev.procs ≡ none) where
    abbrev NotOf : Observation W → Type 0
    NotOf o = o.id ≢ record { rule = ri; proc_key = some key }

    same_key :
        (i : ℕ) (p : ProcRate W) (o : Observation W)
        → o.id ≡ process_id f i p
        → o.id ≡ record { rule = ri; proc_key = some key }
        → p.key ≡ key
    same_key i p o e h = ground (arith, sym e ∙ h)

    known : (p : ProcRate W) → IsRow prev p → p.is_new ≡ false → p.key ≡ key → ⊥
    known p is_row old e =
        let gone : lookup p.key prev.procs ≡ none = ap (λ k. lookup k prev.procs) e ∙ fresh in cc

    process_not :
        (i : ℕ) (rule : Rule W) (p : ProcRate W) → IsRow prev p → All NotOf (of_process f i rule p)
    process_not i rule p is_row = elim (Bool-cases p.is_new) [
      | inl new ↦ rw (observed_new rule p new) tt
      | inr old ↦
          All-map (of_process f i rule p) (λ o e h. known p is_row old (same_key i p o e h))
            (of_process-key f i rule p)
    ]

    processes_not :
        (i : ℕ) (rule : Rule W) (ps : List (ProcRate W))
        → All (IsRow prev) ps
        → All NotOf (of_processes f i rule ps)
    processes_not i rule [] all = tt
    processes_not i rule (p ∷ ps) (r, all) =
        All-append NotOf (of_process f i rule p) (of_processes f i rule ps) (process_not i rule p r)
          (processes_not i rule ps all)

    rule_not :
        (i : ℕ) (rule : Rule W) (t : Target) (snap : Snapshot W)
        → All (IsRow prev) snap.procs
        → All NotOf (of_rule f i rule t snap)
    rule_not i rule (process _) snap all = processes_not i rule snap.procs all
    rule_not i rule system snap all = elim (Option-cases (system_value f rule.metric snap.system)) [
      | inl e ↦ rw e tt
      | inr (v, e) ↦ rw e ((λ same. ground (arith, same)), tt)
    ]

    rules_not :
        (i : ℕ) (rules : List (Rule W)) (snap : Snapshot W)
        → All (IsRow prev) snap.procs
        → All NotOf (observations f i rules snap)
    rules_not i [] snap all = tt
    rules_not i (rule ∷ rules) snap all =
        All-append NotOf (of_rule f i rule rule.target snap) (observations f (suc i) rules snap)
          (rule_not i rule rule.target snap all) (rules_not (suc i) rules snap all)

  -- In a valid engine, a tick on two samples, the second without a key twice, leaves no state,
  -- pending or firing, to a key that the first sample does not have: a process with a reused pid
  -- does not inherit an alert.
  pub recycled-none :
      (e : Engine W) (sys : SysConst) (prev cur : Sample) (now ri : ℕ) (key : ProcKey)
      → IsValid f e
      → Unique cur.procs
      → lookup key prev.procs ≡ none
      → lookup
          (record { rule = ri; proc_key = some key })
          (evaluate f e (diff f sys prev cur) now).1.states
        ≡ none
  recycled-none e sys prev cur now ri key v u fresh =
      (evaluate-Evaluated f e (diff f sys prev cur) now v
          (diff-DistinctKeys sys prev cur u)).unobserved
        (record { rule = ri; proc_key = some key })
        (rules_not ri key prev fresh 0 e.rules (diff f sys prev cur) (diff-IsRow sys prev cur))
