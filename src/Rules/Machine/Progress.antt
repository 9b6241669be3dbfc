-- ===== src/Rules/Machine/Progress.antt =====
-- About rules whose `clear` lies on the right side of their threshold (`is_sane`): clearing, and breaches
-- that last.
use vitals.Float.{Float, IsOrdered}
use vitals.Prelude.{
  ℕ, ◌-◌, ◌≤◌, ◌<◌, ◌≡◌, ◌⊎◌, refl, inl, inr, true, false, none, some, [], ◌∷◌, ◌++◌, arith, All,
}
use vitals.Rules.Engine.{pending, firing, cleared, breaching, still_active, beyond}
use vitals.Rules.Machine.{
  View, Report, Moves, stay_idle, fire_at_once, start_pending, drop_pending, fire, wait, clear,
  hold,
}
use vitals.Rules.Machine.History.{History, Reach, begin, next, Breaches}
use vitals.Rules.Parse.{is_sane}
use vitals.Rules.{Rule, Op, gt, lt}

module _ {ℓ} {W : Type ℓ} (f : Float W) (ord : IsOrdered f) where
  beyond_mono :
      (op : Op) (bound threshold value : W)
      → is_sane f op bound threshold ≡ true
      → beyond f op value threshold ≡ true
      → beyond f op value bound ≡ true
  beyond_mono gt bound threshold value s h = ord.lt_of_le_of_lt bound threshold value s h
  beyond_mono lt bound threshold value s h = ord.lt_of_lt_of_le value threshold bound h s

  module _ (rule : Rule W) (sane : is_sane f rule.op rule.clear rule.threshold ≡ true) where
    pub breaching-still_active :
        (value : W) → breaching f rule value ≡ true → still_active f rule value ≡ true
    breaching-still_active value h = beyond_mono rule.op rule.clear rule.threshold value sane h

    cleared_calm :
        {before after : View} {value : W} {now : ℕ} {report : Report} {held : ℕ}
        → Moves f rule value now before after report
        → report ≡ some (cleared, held)
        → breaching f rule value ≡ false
    cleared_calm {value} (clear b) e = ground (arith, breaching-still_active value)
    cleared_calm (stay_idle b) e = b
    cleared_calm (drop_pending b) e = b
    cleared_calm (fire_at_once b k) e = absurd (ground arith)
    cleared_calm (fire b k) e = absurd (ground arith)
    cleared_calm (start_pending b k) e = cc
    cleared_calm (wait b k) e = cc
    cleared_calm (hold b) e = cc

    -- With ordered arithmetic and a `clear` value on the sane side, a value at which an alert
    -- clears does not breach the threshold.
    pub cleared-not-breaching :
        {since value_at held : ℕ} {after : View} {value : W}
        → Moves f rule value value_at (some (firing, since)) after (some (cleared, held))
        → breaching f rule value ≡ false
    cleared-not-breaching m = cleared_calm m refl

  module _ (rule : Rule W) where
    Reach_cons :
        {start v : View} {h : History f rule} {value : W} {now : ℕ}
        → Reach f rule start ((value, now) ∷ h) v
        → (before : View) × (report : Report) × Reach f rule start h before
          × Moves f rule value now before v report
    Reach_cons (next {before} {report} r m) = (before, report, r, m)

    Reach_nil : {start v : View} → Reach f rule start [] v → start ≡ v
    Reach_nil begin = refl

    -- The views of a subject whose breach began at `t0`.
    abbrev pub PendingOrFiring : ℕ → View → Type 0
    PendingOrFiring t0 v = (v ≡ some (pending, t0)) ⊎ ((s : ℕ) × (v ≡ some (firing, s)))

    -- The same after an observation at `now`; pending only while it has not lasted.
    abbrev pub Overdue : ℕ → ℕ → View → Type 0
    Overdue t0 now v =
        ((v ≡ some (pending, t0)) × (now - t0 < rule.sustain)) ⊎ ((s : ℕ) × (v ≡ some (firing, s)))

    module _ (sane : is_sane f rule.op rule.clear rule.threshold ≡ true) where
      breach_move :
          {before after : View} {value : W} {now t0 : ℕ} {report : Report}
          → breaching f rule value ≡ true
          → PendingOrFiring t0 before
          → Moves f rule value now before after report
          → Overdue t0 now after
      breach_move b p (stay_idle c) = cc
      breach_move b p (fire_at_once c k) = absurd (ground arith)
      breach_move b p (start_pending c k) = absurd (ground arith)
      breach_move b p (drop_pending c) = cc
      breach_move {now} b p (fire c k) = inr (now, refl)
      breach_move {t0} b p (wait {since} c k) = elim p [
        | inl e ↦ inl (e, let t : since ≡ t0 = ground arith in omega arith)
        | inr (s, e) ↦ absurd (ground arith)
      ]
      breach_move {value} b p (clear c) =
          absurd (ground (arith, breaching-still_active rule sane value))
      breach_move b p (hold {since} c) = inr (since, refl)

      first_move :
          {before after : View} {value : W} {now : ℕ} {report : Report}
          → breaching f rule value ≡ true
          → none ≡ before
          → Moves f rule value now before after report
          → PendingOrFiring now after
      first_move b z (stay_idle c) = cc
      first_move {now} b z (fire_at_once c k) = inr (now, refl)
      first_move b z (start_pending c k) = inl refl
      first_move b z (drop_pending c) = cc
      first_move b z (fire c k) = cc
      first_move b z (wait c k) = cc
      first_move b z (clear c) = cc
      first_move b z (hold c) = cc

      weaken : {t0 : ℕ} {v : View} (now : ℕ) → Overdue t0 now v → PendingOrFiring t0 v
      weaken now (inl p) = inl p.0
      weaken now (inr p) = inr p

      run_view :
          (run : History f rule) {v : View} (value : W) (t0 : ℕ)
          → All (Breaches f rule) run
          → breaching f rule value ≡ true
          → Reach f rule none (run ++ ((value, t0) ∷ [])) v
          → PendingOrFiring t0 v
      run_view [] value t0 all b r =
          let (before, report, r', m) = Reach_cons r in first_move b (Reach_nil r') m
      run_view ((w, now) ∷ run) value t0 all b r =
          let (before, report, r', m) = Reach_cons r in
          weaken now (breach_move all.0 (run_view run value t0 all.1 b r') m)

      -- A subject that breaches at `t0`, and at every observation from then on, fires: at the first
      -- observation at which the breach has lasted for `sustain` the alert is on.
      pub lasting_breach_fires :
          (run : History f rule) {v : View} (value last : W) (t0 now : ℕ)
          → breaching f rule value ≡ true
          → All (Breaches f rule) run
          → breaching f rule last ≡ true
          → rule.sustain ≤ now - t0
          → Reach f rule none ((last, now) ∷ (run ++ ((value, t0) ∷ []))) v
          → (s : ℕ) × (v ≡ some (firing, s))
      lasting_breach_fires run value last t0 now b all b' long r =
          let (before, report, r', m) = Reach_cons r in
          elim (breach_move b' (run_view run value t0 all b r') m) [
            | inl p ↦ absurd (omega (arith, p.1, long))
            | inr on ↦ on
          ]
