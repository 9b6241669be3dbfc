-- ===== src/Rules/Evaluate/Alerts.antt =====
-- The list of active alerts, `Engine::active`.
use mathlib.Core.List.{Permᴰ}
use vitals.Float.{Float}
use vitals.Prelude.Sorted.{IsSorted, sort_by-IsSorted, sort_by-perm, length-sort_by}
use vitals.Prelude.{
  ℕ, suc, ◌-◌, ◌≤◌, ◌++◌, ◌⊎◌, subst, sort_by, Option, none, some, ◌≡◌, refl, ap, ◌∙◌, true, false,
  List, [], ◌∷◌, arith, All, ltb, length, filter, filter_map, option_map, get_elem?, get_elem?_lt,
  Bool-cases, inl, inr,
}
use vitals.Rules.Engine.{SubjectId, Phase, pending, firing, State, States, Engine}
use vitals.Rules.Evaluate.Invariant.{IsValid, InRange}
use vitals.Rules.Evaluate.{Active, is_firing, active, active_count}
use vitals.Rules.{Rule}

Phase-cases : (p : Phase) → (p ≡ pending) ⊎ (p ≡ firing)
Phase-cases pending = inl refl
Phase-cases firing = inr refl

module _ {ℓ} {W : Type ℓ} (f : Float W) where
  listed :
      (rules : List (Rule W)) (make : SubjectId × State → Rule W → Active) (m : States)
      → All (InRange f (length rules)) m
      → length (
          filter_map
            (λ s. option_map (make s) (get_elem? rules s.0.rule))
            (filter (λ s. is_firing s.1) m))
        ≡ length (filter (λ s. is_firing s.1) m)
  listed rules make [] all = refl
  listed rules make (s ∷ m) (here, all) = elim (Bool-cases (is_firing s.1)) [
    | inr off ↦ rw off (listed rules make m all)
    | inl on ↦
        let (rule, ruled) = get_elem?_lt rules s.0.rule here in
        rw (on, ruled) (ap suc (listed rules make m all))
  ]

  longer_first_asymm :
      (a b : Active) → ltb a.elapsed b.elapsed ≡ true → ltb b.elapsed a.elapsed ≡ false
  longer_first_asymm a b h = ground arith

  abbrev shown : (SubjectId → ℕ) → SubjectId × State → Rule W → Active
  shown clock s rule = record {
    rule_name = rule.name;
    subject = s.1.label;
    elapsed = clock s.0 - s.1.since;
    since = s.1.since;
  }

  -- The rows of `active`, before the sort.
  abbrev rows : (SubjectId → ℕ) → Engine W → List Active
  rows clock e =
      filter_map (λ s. option_map (shown clock s) (get_elem? e.rules s.0.rule))
        (filter (λ s. is_firing s.1) e.states)

  -- The alerts that are on, spelled out from the states: each by the name of its rule, with the name of its
  -- subject, since when, and how long it has been on by the clock.
  abbrev pub row_of : Rule W → State → Phase → ℕ → List Active
  row_of rule st pending now = []
  row_of rule st firing now =
      record {
        rule_name = rule.name;
        subject = st.label;
        elapsed = now - st.since;
        since = st.since;
      }
      ∷ []

  abbrev pub row_by : Option (Rule W) → State → ℕ → List Active
  row_by none st now = []
  row_by (some rule) st now = row_of rule st st.phase now

  abbrev pub alerts_on : List (Rule W) → (SubjectId → ℕ) → States → List Active
  alerts_on rules clock [] = []
  alerts_on rules clock ((id, st) ∷ m) =
      row_by (get_elem? rules id.rule) st (clock id) ++ alerts_on rules clock m

  rows-alerts_on :
      (rules : List (Rule W)) (clock : SubjectId → ℕ) (m : States)
      → All (InRange f (length rules)) m
      → filter_map
          (λ s. option_map (shown clock s) (get_elem? rules s.0.rule))
          (filter (λ s. is_firing s.1) m)
        ≡ alerts_on rules clock m
  rows-alerts_on rules clock [] all = refl
  rows-alerts_on rules clock ((id, st) ∷ m) (here, all) =
      let (rule, ruled) = get_elem?_lt rules id.rule here in
      let rest = rows-alerts_on rules clock m all in
      elim (Phase-cases st.phase) [
        | inl off ↦ rw (ruled, off, rest) refl
        | inr on ↦ rw (on, ruled, rest) refl
      ]

  -- No row fires for less time than the one that follows it.
  abbrev pub NotShorter : Active → List Active → Type 0
  NotShorter a [] = Unit
  NotShorter a (b ∷ bs) = b.elapsed ≤ a.elapsed

  abbrev pub LongestFirst : List Active → Type 0
  LongestFirst [] = Unit
  LongestFirst (a ∷ rows) = NotShorter a rows × LongestFirst rows

  IsSorted-LongestFirst :
      (rows : List Active) → IsSorted (λ a b. ltb a.elapsed b.elapsed) rows → LongestFirst rows
  IsSorted-LongestFirst [] s = tt
  IsSorted-LongestFirst (a ∷ []) s = (tt, tt)
  IsSorted-LongestFirst (a ∷ b ∷ rows) (h, s) = (ground arith, IsSorted-LongestFirst (b ∷ rows) s)

  -- In a valid engine, whatever the clock reads, `active` lists the alerts that are on, each once
  -- and no other: by the name of its rule, with the name of its subject, since when, and how long
  -- it has been on; and no row is on for less time than the one that follows it. There are as many
  -- as `active_count` says.
  pub active-listed :
      (clock : SubjectId → ℕ) (e : Engine W)
      → IsValid f e
      → Permᴰ (active f clock e) (alerts_on e.rules clock e.states)
        × LongestFirst (active f clock e)
        × (length (active f clock e) ≡ active_count f e)
  unfolding active active_count
  active-listed clock e v = (
    subst (Permᴰ (sort_by (λ a b. ltb a.elapsed b.elapsed) (rows clock e)))
        (rows-alerts_on e.rules clock e.states v.in_range)
        (sort_by-perm (λ a b. ltb a.elapsed b.elapsed) (rows clock e)),
    IsSorted-LongestFirst _
        (sort_by-IsSorted (λ a b. ltb a.elapsed b.elapsed) longer_first_asymm (rows clock e)),
    length-sort_by (λ a b. ltb a.elapsed b.elapsed) (rows clock e)
        ∙ listed e.rules (shown clock) e.states v.in_range,
  )
