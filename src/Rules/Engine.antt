-- ===== src/Rules/Engine.antt =====
-- src/rules.rs: the alert engine. An `Instant` is a number of nanoseconds of the monotonic clock, so
-- `saturating_duration_since` is `-`. A `HashMap` is an association list in its order of iteration.
use vitals.Float.{Float}
use vitals.Prelude.{
  ℕ, ◌-◌, ◌≡◌, ◌↔◌, Bool, true, not, ◌&&◌, Option, none, some, List, [], ◌∷◌, ◌++◌, if◌then◌else◌,
  ◌==◌, ==_iff, leb, arith, Eq, option_eq, option_beq, option_beq_iff, lookup, insert, remove,
}
use vitals.Procfs.{ProcKey, key_eq}
use vitals.Rules.{Metric, Op, gt, lt, Rule}
use vitals.Text.{Text}

pub record SubjectId : Type 0 where
  pub rule : ℕ
  pub proc_key : Option ProcKey

abbrev pub subject_beq : SubjectId → SubjectId → Bool
subject_beq a b = a.rule == b.rule && option_beq a.proc_key b.proc_key

pub subject_beq_iff : (a b : SubjectId) → (subject_beq a b ≡ true) ↔ (a ≡ b)
subject_beq_iff a b = ground (arith, ==_iff a.rule b.rule, option_beq_iff a.proc_key b.proc_key)

instance abbrev pub subject_eq : Eq SubjectId
subject_eq = record { beq = subject_beq; beq_iff = subject_beq_iff }

pub data Phase : Type 0 where
  pending firing : Phase

pub record State : Type 0 where
  pub phase : Phase
  pub since : ℕ
  pub seen : ℕ
  pub label : Text

pub data EventKind : Type 0 where
  fired cleared cleared_gone : EventKind

pub record Event {ℓ} (W : Type ℓ) : Type ℓ where
  pub kind : EventKind
  pub rule_name : Text
  pub subject : Text
  pub metric : Metric
  pub value : W
  pub threshold : W
  pub held_for : ℕ

abbrev pub States : Type 0
States = List (SubjectId × State)

pub record Engine {ℓ} (W : Type ℓ) : Type ℓ where
  pub rules : List (Rule W)
  pub states : States
  pub tick : ℕ

module _ {ℓ} {W : Type ℓ} (f : Float W) where
  -- `Engine::new`.
  unfoldable pub new : List (Rule W) → Engine W
  new rules = record { rules = rules; states = []; tick = 0 }

  -- A comparison by the rule's operator.
  abbrev pub beyond : Op → W → W → Bool
  beyond gt value bound = f.lt bound value
  beyond lt value bound = f.lt value bound

  abbrev pub breaching : Rule W → W → Bool
  breaching rule value = beyond rule.op value rule.threshold

  abbrev pub still_active : Rule W → W → Bool
  still_active rule value = beyond rule.op value rule.clear

  abbrev pub event : EventKind → Rule W → Text → W → W → ℕ → Event W
  event kind rule subject value threshold held_for = record {
    kind = kind;
    rule_name = rule.name;
    subject = subject;
    metric = rule.metric;
    value = value;
    threshold = threshold;
    held_for = held_for;
  }

  -- The states and the events that `step` writes to.
  abbrev pub Out : Type ℓ
  Out = States × List (Event W)

  abbrev emit : Out → Event W → List (Event W)
  emit out e = out.1 ++ (e ∷ [])

  -- `match st.phase` in `step`, on the state with its new label and tick.
  unfoldable pub step_some : SubjectId → Rule W → Text → W → ℕ → State → Phase → Out → Out
  step_some id rule label value now st pending out =
      let held = now - st.since in
      if not (breaching rule value)
      then (remove id out.0, out.1)
      else if leb rule.sustain held
      then (
        insert id (record st { phase = firing; since = now }) out.0,
        emit out (event fired rule label value rule.threshold held),
      )
      else (insert id st out.0, out.1)
  step_some id rule label value now st firing out =
      if not (still_active rule value)
      then (remove id out.0, emit out (event cleared rule label value rule.clear (now - st.since)))
      else (insert id st out.0, out.1)

  -- The case of a subject with no state.
  unfoldable pub step_none : SubjectId → Rule W → Text → W → ℕ → ℕ → Out → Out
  step_none id rule label value now tick out =
      if not (breaching rule value)
      then out
      else if rule.sustain == 0
      then (
        insert id (record { phase = firing; since = now; seen = tick; label = label }) out.0,
        emit out (event fired rule label value rule.threshold 0),
      )
      else (
        insert id (record { phase = pending; since = now; seen = tick; label = label }) out.0,
        out.1,
      )

  -- `Engine::step`.
  unfoldable pub step : SubjectId → Rule W → Text → W → ℕ → ℕ → Out → Out
  unfolding step_some step_none
  step id rule label value now tick out = elim (lookup id out.0) [
    | none ↦ step_none id rule label value now tick out
    | some st ↦
        step_some id rule label value now (record st { seen = tick; label = label }) st.phase out
  ]
