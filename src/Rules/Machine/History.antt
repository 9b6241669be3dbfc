-- ===== src/Rules/Machine/History.antt =====
-- Histories of observations of one subject, and what a pending or firing subject says of its history.
use vitals.Float.{Float}
use vitals.Prelude.{
  ℕ, ◌-◌, ◌≤◌, ◌≡◌, refl, ap, true, none, some, List, [], ◌∷◌, ◌++◌, arith, All, subst, subst,
}
use vitals.Rules.Engine.{pending, firing, fired, breaching, still_active}
use vitals.Rules.Machine.{
  View, Report, Moves, stay_idle, fire_at_once, start_pending, drop_pending, fire, wait, clear,
  hold,
}
use vitals.Rules.{Rule}

module _ {ℓ} {W : Type ℓ} (f : Float W) (rule : Rule W) where
  -- A history of observations, each a value and its instant, newest first.
  abbrev pub History : Type ℓ
  History = List (W × ℕ)

  -- From the view `start` this history leads to this view.
  pub data Reach (start : View) : History → View → Type ℓ where
    begin : Reach start [] start
    next :
        {h : History} {before after : View} {value : W} {now : ℕ} {report : Report}
        → Reach start h before
        → Moves f rule value now before after report
        → Reach start ((value, now) ∷ h) after

  abbrev pub Breaches : W × ℕ → Type 0
  Breaches o = breaching f rule o.0 ≡ true

  abbrev pub Active : W × ℕ → Type 0
  Active o = still_active f rule o.0 ≡ true

  -- A history ends with an unbroken run of breaches that began at the instant `since`.
  pub record BreachingSince (since : ℕ) (h : History) : Type ℓ where
    pub value : W
    pub run : History
    pub older : History
    pub splits : h ≡ run ++ ((value, since) ∷ older)
    pub began : Breaches (value, since)
    pub unbroken : All Breaches run

  module _ {value : W} {now : ℕ} {h : History} where
    begin_run : Breaches (value, now) → BreachingSince now ((value, now) ∷ h)
    begin_run b = record {
      value = value;
      run = [];
      older = h;
      splits = refl;
      began = b;
      unbroken = tt;
    }

    extend_run :
        {since : ℕ}
        → Breaches (value, now)
        → BreachingSince since h
        → BreachingSince since ((value, now) ∷ h)
    extend_run b r = record {
      value = r.value;
      run = (value, now) ∷ r.run;
      older = r.older;
      splits = ap (◌∷◌ (value, now)) r.splits;
      began = r.began;
      unbroken = (b, r.unbroken);
    }

  -- While a subject is pending, it has breached at every observation since it became so.
  pub pending_run :
      {start : View} {h : History} {v : View} {since : ℕ}
      → Reach start h v
      → start ≡ none
      → v ≡ some (pending, since)
      → BreachingSince since h
  pending_run begin z e = cc
  pending_run (next r (stay_idle b)) z e = cc
  pending_run (next r (fire_at_once b k)) z e = absurd (ground arith)
  pending_run {since = s} (next {h} {value} {now} r (start_pending b k)) z e =
      let t : now ≡ s = ground arith in
      subst (λ u. BreachingSince u ((value, now) ∷ h)) t (begin_run b)
  pending_run (next r (drop_pending b)) z e = cc
  pending_run (next r (fire b k)) z e = absurd (ground arith)
  pending_run (next r (wait b k)) z e = extend_run b (pending_run r z e)
  pending_run (next r (clear b)) z e = cc
  pending_run (next r (hold b)) z e = absurd (ground arith)

  -- The run of breaches behind a firing, up to the observation that fired.
  pub record Sustained (held now : ℕ) (h : History) : Type ℓ where
    pub start : ℕ
    pub run : BreachingSince start h
    pub long : rule.sustain ≤ now - start
    pub held_is : held ≡ now - start

  fired_run :
      {h : History} {before after : View} {value : W} {now held : ℕ} {report : Report}
      → Reach none h before
      → Moves f rule value now before after report
      → report ≡ some (fired, held)
      → Sustained held now ((value, now) ∷ h)
  fired_run r (stay_idle b) e = cc
  fired_run {now} r (fire_at_once b z) e = record {
    start = now;
    run = begin_run b;
    long = omega arith;
    held_is = ground arith;
  }
  fired_run r (start_pending b k) e = cc
  fired_run r (drop_pending b) e = cc
  fired_run r (fire {since} b k) e = record {
    start = since;
    run = extend_run b (pending_run r refl refl);
    long = k;
    held_is = ground arith;
  }
  fired_run r (wait b k) e = cc
  fired_run r (clear b) e = absurd (ground arith)
  fired_run r (hold b) e = cc

  -- An alert fires only when the subject has breached at every observation of an unbroken run that
  -- began at least `sustain` before, and the event says how long that was.
  pub fired-Sustained :
      {h : History} {before after : View} {value : W} {now held : ℕ}
      → Reach none h before
      → Moves f rule value now before after (some (fired, held))
      → Sustained held now ((value, now) ∷ h)
  fired-Sustained r m = fired_run r m refl

  -- The history ends with the observation that fired, at `since`, and observations behind it that
  -- all kept the alert on.
  pub record FiredAt (since : ℕ) (h : History) : Type ℓ where
    pub value : W
    pub run : History
    pub older : History
    pub splits : h ≡ run ++ ((value, since) ∷ older)
    pub held : ℕ
    pub sustained : Sustained held since ((value, since) ∷ older)
    pub active : All Active run

  fired_here :
      {h : History} {value : W} {now held : ℕ}
      → Sustained held now ((value, now) ∷ h)
      → FiredAt now ((value, now) ∷ h)
  fired_here {h} {value} {now} {held} s = record {
    value = value;
    run = [];
    older = h;
    splits = refl;
    held = held;
    sustained = s;
    active = tt;
  }

  firing_run :
      {start : View} {h : History} {v : View} {since : ℕ}
      → Reach start h v
      → start ≡ none
      → v ≡ some (firing, since)
      → FiredAt since h
  firing_run begin z e = cc
  firing_run (next r (stay_idle b)) z e = cc
  firing_run {since = s} (next {h} {value} {now} r (fire_at_once b k)) z e =
      let t : now ≡ s = ground arith in
      subst (λ u. FiredAt u ((value, now) ∷ h)) t
        (fired_here (fired_run (subst (λ u. Reach u h none) z r) (fire_at_once b k) refl))
  firing_run (next r (start_pending b k)) z e = absurd (ground arith)
  firing_run (next r (drop_pending b)) z e = cc
  firing_run {since = s} (next {h} {value} {now} r (fire {since = s'} b k)) z e =
      let t : now ≡ s = ground arith in
      subst (λ u. FiredAt u ((value, now) ∷ h)) t
        (fired_here (fired_run (subst (λ u. Reach u h (some (pending, s'))) z r) (fire b k) refl))
  firing_run (next r (wait b k)) z e = absurd (ground arith)
  firing_run (next r (clear b)) z e = cc
  firing_run (next {value} {now} r (hold b)) z e =
      let old = firing_run r z e in
      record {
        value = old.value;
        run = (value, now) ∷ old.run;
        older = old.older;
        splits = ap (◌∷◌ (value, now)) old.splits;
        held = old.held;
        sustained = old.sustained;
        active = (b, old.active);
      }

  -- While an alert is on, the observation that fired it had sustained the breach, and no value since
  -- then has crossed the `clear` boundary.
  pub firing-FiredAt :
      {h : History} {since : ℕ} → Reach none h (some (firing, since)) → FiredAt since h
  firing-FiredAt r = firing_run r refl refl
