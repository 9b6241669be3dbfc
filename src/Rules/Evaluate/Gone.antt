-- ===== src/Rules/Evaluate/Gone.antt =====
-- About alerts whose subject is not observed.
use mathlib.Core.Option.{some-injective}
use mathlib.Core.Path.{ap₂}
use mathlib.Core.List.{Mem, mem-cons_self, mem-append_right}
use vitals.Delta.{Snapshot}
use vitals.Float.{Float, of_nat}
use vitals.Prelude.{
  ℕ, ◌-◌, ◌≡◌, ◌≢◌, sym, ◌∙◌, subst, inl, inr, true, false, not, none, some, List, [], ◌∷◌, arith,
  All, All-lookup, length, lookup, filter, filter_map, get_elem?, get_elem?_lt, Bool-cases,
  ne→==_false, to_list, ◌==◌,
}
use vitals.Rules.Engine.{
  SubjectId, subject_eq, subject_beq, subject_beq_iff, State, States, firing, Event, cleared_gone,
  Engine,
}
use vitals.Rules.Evaluate.Invariant.{IsValid, InRange}
use vitals.Rules.Evaluate.Observations.{Observation, DistinctKeys, observations}
use vitals.Rules.Evaluate.Subjects.{
  next_tick, after_loops, events-evaluate, untouched, evaluate-Evaluated,
}
use vitals.Rules.Evaluate.{evaluate, is_seen, is_firing, gone_event}
use vitals.Rules.{Rule}

module _ {ℓ} {W : Type ℓ} (f : Float W) where
  -- The event of an alert that goes with its subject.
  abbrev pub farewell : Rule W → State → ℕ → Event W
  farewell rule st now = record {
    kind = cleared_gone;
    rule_name = rule.name;
    subject = st.label;
    metric = rule.metric;
    value = of_nat f 0;
    threshold = rule.threshold;
    held_for = now - st.since;
  }

  module _ (rules : List (Rule W)) (now tick : ℕ) (j : SubjectId) (st : State) (rule : Rule W)
      (ruled : get_elem? rules j.rule ≡ some rule) (on : st.phase ≡ firing)
      (old : st.seen ≢ tick) where
    gone_event-farewell : gone_event f rules now (j, st) ≡ some (farewell rule st now)
    unfolding gone_event
    gone_event-farewell = let fires : is_firing st ≡ true = ground arith in rw (fires, ruled)

    mem-gone :
        (m : States)
        → lookup j m ≡ some st
        → Mem
            (farewell rule st now)
            (filter_map (gone_event f rules now) (filter (λ s. not (is_seen f tick s)) m))
    unfolding lookup
    mem-gone [] h = cc
    mem-gone ((i, s) ∷ m) h = elim (Bool-cases (subject_beq i j)) [
      | inl same ↦
          let p : i ≡ j = (subject_beq_iff i j).0 same in
          let q : s ≡ st = some-injective _ _ (rw same at h) in
          let unseen : (s.seen == tick) ≡ false =
            ne→==_false s.seen tick (subst (λ (t : State). t.seen ≢ tick) (sym q) old) in
          let here : gone_event f rules now (i, s) ≡ some (farewell rule st now) =
            ap₂ (λ a b. gone_event f rules now (a, b)) p q ∙ gone_event-farewell in
          rw (unseen, here) mem-cons_self
      | inr other ↦
          let rest = mem-gone m (rw other at h) in
          elim (Bool-cases (s.seen == tick)) [
            | inl seen ↦ rw seen rest
            | inr unseen ↦
                rw unseen (mem-append_right (to_list (gone_event f rules now (i, s))) rest)
          ]
    ]

  -- What `evaluate` does with an alert whose subject is not observed.
  pub record Reported (e : Engine W) (snap : Snapshot W) (now : ℕ) (j : SubjectId) (st : State)
      : Type ℓ where
    pub rule : Rule W
    pub rule_is : get_elem? e.rules j.rule ≡ some rule
    pub dropped : lookup j (evaluate f e snap now).1.states ≡ none
    pub mem : Mem (farewell rule st now) (evaluate f e snap now).0

  module _ (e : Engine W) (snap : Snapshot W) (now : ℕ) (j : SubjectId) (st : State) where
    -- In a valid engine, and over processes with different keys, an alert that is on and whose
    -- subject is not observed is dropped, and reported as `ClearedGone` with its rule, its label
    -- and how long it was on.
    pub evaluate-Reported :
        IsValid f e
        → DistinctKeys snap.procs
        → lookup j e.states ≡ some st
        → st.phase ≡ firing
        → All (λ (o : Observation W). o.id ≢ j) (observations f 0 e.rules snap)
        → Reported e snap now j st
    evaluate-Reported v d h on all =
        let (rule, ruled) =
          get_elem?_lt e.rules j.rule
            (All-lookup (InRange f (length e.rules)) j e.states v.in_range h) in
        let tick_was =
          All-lookup (λ (s : SubjectId × State). s.1.seen ≡ e.tick) j e.states v.ticked h in
        let old : st.seen ≢ next_tick f e = λ same. omega arith in
        record {
          rule = rule;
          rule_is = ruled;
          dropped = (evaluate-Evaluated f e snap now v d).unobserved j all;
          mem = subst (Mem (farewell rule st now)) (sym (events-evaluate f e snap now)) (
              mem-append_right (after_loops f e snap now).1 (
                mem-gone e.rules now (next_tick f e) j st rule ruled on old
                  (after_loops f e snap now).0 (untouched f e snap now j v all ∙ h)));
        }
