-- ===== src/Rules/Machine.antt =====
-- The state machine of one alert subject, as a relation; `Step` compares `Engine::step` with it.
pub mod Step
pub mod History
pub mod Progress
use vitals.Float.{Float}
use vitals.Prelude.{
  ℕ, ◌-◌, ◌≤◌, ◌<◌, ◌≡◌, Bool, true, false, Option, none, some, List, [], ◌∷◌, ltb, leb,
}
use vitals.Rules.Engine.{
  Phase, pending, firing, State, EventKind, fired, cleared, cleared_gone, Event, event, breaching,
  still_active,
}
use vitals.Rules.{Rule}
use vitals.Text.{Text}

-- What the machine remembers of a subject: nothing while it is inactive, else the phase and the
-- instant at which it was entered.
abbrev pub View : Type 0
View = Option (Phase × ℕ)

abbrev pub view : Option State → View
view none = none
view (some st) = some (st.phase, st.since)

-- What a move reports: the kind of event, and for how long the phase before was held.
abbrev pub Report : Type 0
Report = Option (EventKind × ℕ)

module _ {ℓ} {W : Type ℓ} (f : Float W) where
  -- One observation of a subject by a rule, at the instant `now`: the phase before, the phase after,
  -- and the report.
  pub data Moves (rule : Rule W) (value : W) (now : ℕ) : View → View → Report → Type 0 where
    stay_idle : breaching f rule value ≡ false → Moves rule value now none none none
    fire_at_once :
        breaching f rule value ≡ true
        → rule.sustain ≡ 0
        → Moves rule value now none (some (firing, now)) (some (fired, 0))
    start_pending :
        breaching f rule value ≡ true
        → 0 < rule.sustain
        → Moves rule value now none (some (pending, now)) none
    drop_pending :
        {since : ℕ}
        → breaching f rule value ≡ false
        → Moves rule value now (some (pending, since)) none none
    fire :
        {since : ℕ}
        → breaching f rule value ≡ true
        → rule.sustain ≤ now - since
        → Moves rule value now
            (some (pending, since))
            (some (firing, now))
            (some (fired, now - since))
    wait :
        {since : ℕ}
        → breaching f rule value ≡ true
        → now - since < rule.sustain
        → Moves rule value now (some (pending, since)) (some (pending, since)) none
    clear :
        {since : ℕ}
        → still_active f rule value ≡ false
        → Moves rule value now (some (firing, since)) none (some (cleared, now - since))
    hold :
        {since : ℕ}
        → still_active f rule value ≡ true
        → Moves rule value now (some (firing, since)) (some (firing, since)) none

  -- The events that a report stands for.
  abbrev pub reported : Rule W → Text → W → Report → List (Event W)
  reported rule label value none = []
  reported rule label value (some (fired, held)) =
      event f fired rule label value rule.threshold held ∷ []
  reported rule label value (some (cleared, held)) =
      event f cleared rule label value rule.clear held ∷ []
  reported rule label value (some (cleared_gone, held)) = []
