-- ===== src/Rules/Evaluate/Subjects.antt =====
-- One evaluation, seen from its subjects.
pub mod Separate
use vitals.Delta.{ProcRate, Snapshot}
use vitals.Float.{Float}
use vitals.Prelude.{
  ℕ, zero, suc, ◌+◌, ◌≤◌, ◌<◌, ◌≡◌, ◌≢◌, refl, sym, ap, ◌∙◌, inl, inr, Bool, true, false, not,
  Option, none, some, List, [], ◌∷◌, ◌++◌, arith, All, All-map, ne→==_false, append_assoc,
  append-nil, subst, lookup, keep, lookup-filter, All-lookup, Option-cases, Bool-cases, ==_iff,
  filter_map, length, option_map, get_elem?, Unique, filter, add_word, if◌then◌else◌, ◌==◌,
}
use vitals.Rules.Engine.{
  SubjectId, subject_eq, State, States, Event, cleared_gone, Engine, Out, step,
}
use vitals.Rules.Evaluate.Observations.{
  Observation, Distinct, DistinctKeys, observations, step_on, step_all, step_rules-step_all,
}
use vitals.Rules.Evaluate.Subjects.Separate.{observations-Distinct, observations-rule}
use vitals.Rules.Evaluate.Invariant.{IsValid, step_all-Unique}
use vitals.Rules.Evaluate.{evaluate, is_seen, is_firing, gone_event, reap, step_rules}
use vitals.Rules.{Rule}
use vitals.Rules.Machine.Step.{Stepped, step-Stepped}
use vitals.Rules.Machine.{View, view, Report, Moves, reported}

module _ {ℓ} {W : Type ℓ} (f : Float W) where
  -- Each observation is a move of its subject between these states, and the events are what the
  -- moves report, in order.
  pub data Judged (now : ℕ) (before after : States)
      : List (Observation W) → List (Event W) → Type ℓ where
    nil : Judged now before after [] []
    cons :
        {o : Observation W} {os : List (Observation W)} {report : Report} {events : List (Event W)}
        → Moves f o.rule o.value now (view (lookup o.id before)) (view (lookup o.id after)) report
        → Judged now before after os events
        → Judged now before after (o ∷ os) (reported f o.rule o.label o.value report ++ events)

  module _ (now tick : ℕ) where
    abbrev stepped :
        (o : Observation W) (out : Out f)
        → Stepped f o.id o.rule o.label o.value now tick out (step_on f now tick o out)
    stepped o out = step-Stepped f o.id o.rule o.label o.value now tick out

    step_all_other :
        (os : List (Observation W)) (out : Out f) (j : SubjectId)
        → All (λ (o : Observation W). o.id ≢ j) os
        → lookup j (step_all f now tick os out).0 ≡ lookup j out.0
    step_all_other [] out j all = refl
    step_all_other (o ∷ os) out j all =
        step_all_other os (step_on f now tick o out) j all.1
        ∙ (stepped o out).others j (λ e. all.0 (sym e))

    -- A subject that is observed has, behind the loops, no state or one of this tick.
    abbrev Marked : States → SubjectId → Type 0
    Marked m j = (st : State) → lookup j m ≡ some st → st.seen ≡ tick

    -- What the loops did, from `out` to their result.
    record Ran (os : List (Observation W)) (out : Out f) : Type ℓ where
      events : List (Event W)
      judged : Judged now out.0 (step_all f now tick os out).0 os events
      grown : (step_all f now tick os out).1 ≡ out.1 ++ events
      marked : All (λ (o : Observation W). Marked (step_all f now tick os out).0 o.id) os

    -- The states of other subjects may be taken from an earlier map.
    Judged-before :
        {m m' after : States} (os : List (Observation W)) {events : List (Event W)}
        → All (λ (o : Observation W). lookup o.id m' ≡ lookup o.id m) os
        → Judged now m' after os events
        → Judged now m after os events
    Judged-before [] all nil = nil
    Judged-before {m} {m'} {after} (o ∷ os) all (cons {report} mv j) =
        cons
          (subst (λ s. Moves f o.rule o.value now (view s) (view (lookup o.id after)) report) all.0
            mv)
          (Judged-before os all.1 j)

    step_all-Ran : (os : List (Observation W)) (out : Out f) → Distinct os → Ran os out
    step_all-Ran [] out d = record {
      events = [];
      judged = nil;
      grown = sym (append-nil out.1);
      marked = tt;
    }
    step_all-Ran (o ∷ os) out d =
        let one = stepped o out in
        let rest = step_all-Ran os (step_on f now tick o out) d.1 in
        let after : States = (step_all f now tick os (step_on f now tick o out)).0 in
        let settled = step_all_other os (step_on f now tick o out) o.id d.0 in
        record {
          events = reported f o.rule o.label o.value one.report ++ rest.events;
          judged =
              cons
                (subst
                  (λ s. Moves f o.rule o.value now (view (lookup o.id out.0)) (view s) one.report)
                  (sym settled) one.move)
                (Judged-before os (All-map os (λ u ne. one.others u.id ne) d.0) rest.judged);
          grown =
              rest.grown
              ∙ ap (λ evs. evs ++ rest.events) one.events
              ∙ append_assoc out.1 (reported f o.rule o.label o.value one.report) rest.events;
          marked = (λ st e. (one.marked st (sym settled ∙ e)).0, rest.marked);
        }

    -- The sweep keeps the state of a subject that was observed, and drops any older one.
    kept :
        (m : States) (j : SubjectId)
        → Unique m
        → Marked m j
        → lookup j (filter (is_seen f tick) m) ≡ lookup j m
    kept m j u marked = elim (Option-cases (lookup j m)) [
      | inl e ↦ lookup-filter (is_seen f tick) j m u ∙ ap (keep (is_seen f tick) j) e ∙ sym e
      | inr (st, e) ↦
          let seen : (st.seen == tick) ≡ true = (==_iff st.seen tick).1 (marked st e) in
          lookup-filter (is_seen f tick) j m u ∙ ap (keep (is_seen f tick) j) e ∙ rw seen (sym e)
    ]

    swept :
        (m : States) (j : SubjectId)
        → Unique m
        → ((st : State) → lookup j m ≡ some st → st.seen ≢ tick)
        → lookup j (filter (is_seen f tick) m) ≡ none
    swept m j u older = elim (Option-cases (lookup j m)) [
      | inl e ↦ lookup-filter (is_seen f tick) j m u ∙ ap (keep (is_seen f tick) j) e
      | inr (st, e) ↦
          let seen : (st.seen == tick) ≡ false = ne→==_false st.seen tick (older st e) in
          lookup-filter (is_seen f tick) j m u ∙ ap (keep (is_seen f tick) j) e ∙ rw seen
    ]

    Judged-after :
        {m after after' : States} (os : List (Observation W)) {events : List (Event W)}
        → All (λ (o : Observation W). lookup o.id after' ≡ lookup o.id after) os
        → Judged now m after os events
        → Judged now m after' os events
    Judged-after [] all nil = nil
    Judged-after {m} {after} {after'} (o ∷ os) all (cons {report} mv j) =
        cons
          (subst (λ s. Moves f o.rule o.value now (view (lookup o.id m)) (view s) report)
            (sym all.0) mv)
          (Judged-after os all.1 j)

    gone_kind :
        (rules : List (Rule W)) (m : States)
        → All (λ (ev : Event W). ev.kind ≡ cleared_gone) (filter_map (gone_event f rules now) m)
    unfolding gone_event
    gone_kind rules [] = tt
    gone_kind rules ((id, st) ∷ m) = elim (Bool-cases (is_firing st)) [
      | inr off ↦ rw off (gone_kind rules m)
      | inl on ↦ elim (Option-cases (get_elem? rules id.rule)) [
        | inl e ↦ rw (on, e) (gone_kind rules m)
        | inr (rule, e) ↦ rw (on, e) (refl, gone_kind rules m)
      ]
    ]

  abbrev pub next_tick : Engine W → ℕ
  next_tick e = add_word e.tick 1

  module _ (e : Engine W) (snap : Snapshot W) (now : ℕ) where
    abbrev observed_all : List (Observation W)
    observed_all = observations f 0 e.rules snap

    abbrev pub after_loops : Out f
    after_loops = step_all f now (next_tick e) observed_all (e.states, [])

    abbrev pub gone_events : List (Event W)
    gone_events =
        filter_map (gone_event f e.rules now)
          (filter (λ s. not (is_seen f (next_tick e) s)) after_loops.0)

    loops-eq : step_rules f 0 e.rules snap now (next_tick e) (e.states, []) ≡ after_loops
    loops-eq = step_rules-step_all f now (next_tick e) 0 e.rules snap (e.states, [])

    pub states-evaluate :
        (evaluate f e snap now).1.states ≡ filter (is_seen f (next_tick e)) after_loops.0
    unfolding evaluate reap
    states-evaluate = ap (λ out. filter (is_seen f (next_tick e)) out.0) loops-eq

    pub events-evaluate : (evaluate f e snap now).0 ≡ after_loops.1 ++ gone_events
    unfolding evaluate reap
    events-evaluate =
        ap
          (λ out.
            out.1
            ++ filter_map (gone_event f e.rules now)
                (filter (λ s. not (is_seen f (next_tick e) s)) out.0))
          loops-eq

    -- A state that no observation touched is of the tick before.
    pub untouched :
        (j : SubjectId)
        → IsValid f e
        → All (λ (o : Observation W). o.id ≢ j) observed_all
        → lookup j after_loops.0 ≡ lookup j e.states
    untouched j v all = step_all_other now (next_tick e) observed_all (e.states, []) j all

  -- What one evaluation did.
  pub record Evaluated (e : Engine W) (snap : Snapshot W) (now : ℕ) : Type ℓ where
    pub events : List (Event W)
    pub gone : List (Event W)
    pub judged :
        Judged now e.states (evaluate f e snap now).1.states (observations f 0 e.rules snap) events
    pub returned : (evaluate f e snap now).0 ≡ events ++ gone
    pub all_gone : All (λ (ev : Event W). ev.kind ≡ cleared_gone) gone
    pub unobserved :
        (j : SubjectId)
        → All (λ (o : Observation W). o.id ≢ j) (observations f 0 e.rules snap)
        → lookup j (evaluate f e snap now).1.states ≡ none

  -- In a valid engine, and over processes with different keys, `evaluate` moves each observed
  -- subject once, by its one observation; it returns what the moves report, in the order of the
  -- loops, and behind that only `ClearedGone` events; and a subject that is not observed has no
  -- state left.
  pub evaluate-Evaluated :
      (e : Engine W) (snap : Snapshot W) (now : ℕ)
      → IsValid f e
      → DistinctKeys snap.procs
      → Evaluated e snap now
  evaluate-Evaluated e snap now v d =
      let tick = next_tick e in
      let os = observations f 0 e.rules snap in
      let out = after_loops e snap now in
      let ran =
        step_all-Ran now tick os (e.states, []) (observations-Distinct f 0 e.rules snap d) in
      let u = step_all-Unique f now tick os (e.states, []) v.unique in
      let states = states-evaluate e snap now in
      record {
        events = ran.events;
        gone = gone_events e snap now;
        judged =
            Judged-after now tick os
              (All-map os (λ o m. ap (lookup o.id) states ∙ kept now tick out.0 o.id u m)
                ran.marked)
              ran.judged;
        returned = events-evaluate e snap now ∙ ap (λ evs. evs ++ gone_events e snap now) ran.grown;
        all_gone = gone_kind now tick e.rules _;
        unobserved = λ j all.
            ap (lookup j) states
            ∙ swept now tick out.0 j u (λ st h same.
              let old =
                All-lookup (λ (s : SubjectId × State). s.1.seen ≡ e.tick) j e.states v.ticked
                  (sym (untouched e snap now j v all) ∙ h) in
              omega arith);
      }
