-- ===== src/Rules/Tests.antt =====
-- Rules and engines for the tests, and the runs of single subjects.
mod Engines
mod Files
use vitals.Float.Whole.{whole, whole-IsOrdered}
use vitals.Prelude.{
  ℕ, ◌-◌, ◌≤◌, ◌<◌, ◌≡◌, refl, Bool, true, false, Option, none, some, List, [], ◌∷◌, ◌++◌, arith,
  leb,
}
use vitals.Rules.Engine.{
  SubjectId, State, Phase, pending, firing, fired, cleared, Out, step, breaching, still_active,
}
use vitals.Rules.Machine.History.{
  Reach, begin, next, FiredAt, Sustained, fired-Sustained, firing-FiredAt,
}
use vitals.Rules.Machine.Progress.{
  breaching-still_active, cleared-not-breaching, lasting_breach_fires,
}
use vitals.Rules.Machine.Step.{Stepped, step-Stepped}
use vitals.Rules.Machine.{View, start_pending, wait, fire, clear, hold}
use vitals.Rules.{Rule, cpu_pct, read_bps, gt, system, process}
use vitals.Text.{Text, codes}

-- Over 80 for 10, and off below 60.
abbrev pub cpu_rule : Rule ℕ
cpu_rule = record {
  name = codes "hot";
  target = system;
  metric = cpu_pct;
  op = gt;
  threshold = 80;
  sustain = 10;
  clear = 60;
}

abbrev pub read_rule : Rule ℕ
read_rule = record {
  name = codes "reads";
  target = process (codes "job");
  metric = read_bps;
  op = gt;
  threshold = 50;
  sustain = 0;
  clear = 50;
}

abbrev pub cpu_subject : SubjectId
cpu_subject = record { rule = 0; proc_key = none }

abbrev hot_state : State
hot_state = record { phase = pending; since = 100; seen = 1; label = codes "system" }

step-Stepped_example :
    Stepped whole cpu_subject cpu_rule
      (codes "system")
      90
      110
      2
      ((cpu_subject, hot_state) ∷ [], [])
      (step whole cpu_subject cpu_rule
        (codes "system")
        90
        110
        2
        ((cpu_subject, hot_state) ∷ [], []))
step-Stepped_example =
    step-Stepped whole cpu_subject cpu_rule (codes "system") 90 110 2
      ((cpu_subject, hot_state) ∷ [], [])

-- 90 at 100, 85 at 105, and 90 at 110.
abbrev two_breaches : Reach whole cpu_rule none ((85, 105) ∷ (90, 100) ∷ []) (some (pending, 100))
two_breaches = next (next begin (start_pending refl (omega arith))) (wait refl (omega arith))

fired-Sustained_example : Sustained whole cpu_rule 10 110 ((90, 110) ∷ (85, 105) ∷ (90, 100) ∷ [])
fired-Sustained_example = fired-Sustained whole cpu_rule two_breaches (fire refl (omega arith))

abbrev on_at_110 :
    Reach whole cpu_rule none
      ((70, 120) ∷ (90, 110) ∷ (85, 105) ∷ (90, 100) ∷ [])
      (some (firing, 110))
on_at_110 = next (next two_breaches (fire refl (omega arith))) (hold refl)

firing-FiredAt_example :
    FiredAt whole cpu_rule 110 ((70, 120) ∷ (90, 110) ∷ (85, 105) ∷ (90, 100) ∷ [])
firing-FiredAt_example = firing-FiredAt whole cpu_rule on_at_110

breaching-still_active_example : still_active whole cpu_rule 90 ≡ true
breaching-still_active_example = breaching-still_active whole whole-IsOrdered cpu_rule refl 90 refl

lasting_breach_fires_example : (s : ℕ) × (◌≡◌ {A = View} (some (firing, 110)) (some (firing, s)))
lasting_breach_fires_example =
    lasting_breach_fires whole whole-IsOrdered cpu_rule refl ((85, 105) ∷ []) 90 90 100 110 refl
      (refl, tt) refl (omega arith) (next two_breaches (fire refl (omega arith)))
