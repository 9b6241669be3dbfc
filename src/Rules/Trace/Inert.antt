-- ===== src/Rules/Trace/Inert.antt =====
-- System rules on a metric that only processes have.
use mathlib.Core.Option.{some-injective}
use vitals.Delta.{Snapshot, SystemRate}
use vitals.Float.{Float}
use vitals.Prelude.{
  ℕ, suc, ◌-◌, ◌≡◌, refl, sym, ap, ◌∙◌, subst, inl, inr, Option, none, some, List, [], ◌∷◌, arith,
  All, All-map, All-append, Option-cases, lookup, get_elem?,
}
use vitals.Rules.Engine.{SubjectId, subject_eq, State, new}
use vitals.Rules.Evaluate.Find.{find, find-some, of_rule-by, observations-by}
use vitals.Rules.Evaluate.Observations.{Observation, DistinctKeys, observations, of_rule}
use vitals.Rules.Evaluate.{system_value}
use vitals.Rules.Machine.History.{Reach, begin}
use vitals.Rules.Machine.{View, view}
use vitals.Rules.Trace.{run, history, run-Reach}
use vitals.Rules.{Rule, Metric, rss, read_bps, write_bps, threads, Target, system, process}

-- The metrics that a process has and the system does not.
pub data OfProcesses : Metric → Type 0 where
  of_rss : OfProcesses rss
  of_read_bps : OfProcesses read_bps
  of_write_bps : OfProcesses write_bps
  of_threads : OfProcesses threads

module _ {ℓ} {W : Type ℓ} (f : Float W) where
  no_value : {m : Metric} (s : SystemRate W) → OfProcesses m → system_value f m s ≡ none
  unfolding system_value
  no_value s of_rss = refl
  no_value s of_read_bps = refl
  no_value s of_write_bps = refl
  no_value s of_threads = refl

  -- An observation by such a rule is not of the system.
  abbrev IsOfProcess : Observation W → Type 0
  IsOfProcess o = o.rule.target ≡ system → OfProcesses o.rule.metric → ⊥

  of_rule-IsOfProcess :
      (ri : ℕ) (rule : Rule W) (t : Target) (snap : Snapshot W)
      → rule.target ≡ t
      → All IsOfProcess (of_rule f ri rule t snap)
  of_rule-IsOfProcess ri rule system snap is =
      elim (Option-cases (system_value f rule.metric snap.system)) [
        | inl e ↦ rw e tt
        | inr (v, e) ↦ rw e ((λ at m. absurd (ground (arith, no_value snap.system m, e))), tt)
      ]
  of_rule-IsOfProcess ri rule (process p) snap is =
      All-map (of_rule f ri rule (process p) snap) (λ o by at m. absurd (other o by at))
        (of_rule-by f ri rule (process p) snap)
    where
      other : (o : Observation W) → o.rule ≡ rule → o.rule.target ≡ system → ⊥
      other o by at =
          let same : process p ≡ system = sym is ∙ ap (λ (r : Rule W). r.target) (sym by) ∙ at in cc

  observations-IsOfProcess :
      (ri : ℕ) (rules : List (Rule W)) (snap : Snapshot W)
      → All IsOfProcess (observations f ri rules snap)
  observations-IsOfProcess ri [] snap = tt
  observations-IsOfProcess ri (rule ∷ rules) snap =
      All-append IsOfProcess (of_rule f ri rule rule.target snap)
        (observations f (suc ri) rules snap) (of_rule-IsOfProcess ri rule rule.target snap refl)
        (observations-IsOfProcess (suc ri) rules snap)

  module _ (rules : List (Rule W)) (j : SubjectId) {rule : Rule W}
      (ruled : get_elem? rules j.rule ≡ some rule) (at : rule.target ≡ system)
      (metric : OfProcesses rule.metric) where
    find_inert : (snap : Snapshot W) → find j (observations f 0 rules snap) ≡ none
    find_inert snap = elim (Option-cases (find j (observations f 0 rules snap))) [
      | inl e ↦ e
      | inr (o, e) ↦
          let (id, by) =
            find-some (λ (o : Observation W). get_elem? rules (o.id.rule - 0) ≡ some o.rule) j
              (observations f 0 rules snap) (observations-by f 0 rules snap) e in
          let (_, not_system) =
            find-some IsOfProcess j (observations f 0 rules snap)
              (observations-IsOfProcess 0 rules snap) e in
          absurd (contradicts o id by not_system)
    ]
      where
        contradicts :
            (o : Observation W)
            → o.id ≡ j
            → get_elem? rules (o.id.rule - 0) ≡ some o.rule
            → IsOfProcess o
            → ⊥
        contradicts o id by not_system =
            let n : j.rule ≡ o.id.rule - 0 = omega (arith, ap (λ (i : SubjectId). i.rule) id) in
            let same : rule ≡ o.rule =
              some-injective _ _ (sym ruled ∙ ap (get_elem? rules) n ∙ by) in
            not_system (subst (λ (r : Rule W). r.target ≡ system) same at)
              (subst (λ (r : Rule W). OfProcesses r.metric) same metric)

    history_inert : (ticks : List (Snapshot W × ℕ)) → history f rules j ticks ≡ []
    history_inert [] = refl
    history_inert ((snap, now) ∷ ticks) = rw (find_inert snap, history) refl

    view-none : (o : Option State) → view o ≡ none → o ≡ none
    view-none none h = refl
    view-none (some st) h = cc

    begun : {h : List (W × ℕ)} {v : View} → Reach f rule none h v → h ≡ [] → v ≡ none
    begun begin h = refl
    begun (Reach.next r m) h = cc

    -- After any snapshots with different process keys, a subject of a system rule on `rss`,
    -- `read_bps`, `write_bps` or `threads` has no state: such a rule is never pending and never
    -- fires.
    pub inert-none :
        (ticks : List (Snapshot W × ℕ))
        → All (λ (t : Snapshot W × ℕ). DistinctKeys t.0.procs) ticks
        → lookup j (run f (new f rules) ticks).states ≡ none
    inert-none ticks d =
        view-none (lookup j (run f (new f rules) ticks).states)
          (begun (run-Reach f rules j ruled ticks d) (history_inert ticks))
