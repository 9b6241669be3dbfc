-- ===== src/System/Consistent.antt =====
-- What a reader of the shared state sees, wherever the thread stands: the state after whole passes.
use vitals.Cli.Loop.{Round}
use vitals.Cli.Loop.Ends.{shown}
use vitals.Cli.Start.{Line}
use vitals.Cli.{Settings}
use vitals.Float.{Float}
use vitals.Prelude.{
  ◌≡◌, refl, sym, ap, ◌∙◌, List, [], ◌∷◌, ◌++◌, if◌then◌else◌, is_none, Bool-cases, inl, inr,
}
use vitals.Rules.Engine.{Engine}
use vitals.Sampler.Cycles.{cycles}
use vitals.Sampler.{SamplerConfig, Worker, Work, Readings, spawn, work, time_left, cycle}
use vitals.System.{
  Place, head, scanning, napping, returned, handing, counting, resting, System, alerts, finish,
  hand, count, overrun,
}
use vitals.Units.{SysConst}

module _ {ℓ} {W : Type ℓ} (f : Float W) (sys : SysConst) (cfg : SamplerConfig)
    (engine : Engine W) where
  -- The worker after whole passes, newest first.
  abbrev pub whole_passes : List Readings → Worker W
  whole_passes rs = cycles f sys cfg rs (spawn f engine cfg)

  -- What the next pass makes of it, before the lock is taken.
  abbrev pub next_work : Readings → List Readings → Work W
  next_work r rs = work f sys r.now r.result (whole_passes rs).engine (whole_passes rs).prev

  abbrev pub finished : Readings → List Readings → Worker W
  finished r rs = finish f (next_work r rs) (whole_passes rs)

  abbrev pub handed : Readings → List Readings → Worker W
  handed r rs = hand f (next_work r rs) (alerts f r (next_work r rs).engine) (finished r rs)

  -- A pass is its parts, in the order in which the thread takes them.
  pub cycle_parts :
      (r : Readings) (rs : List Readings)
      → whole_passes (r ∷ rs) ≡ (
          if is_none (time_left f cfg r.spent)
          then overrun f (count f (handed r rs))
          else count f (handed r rs))
  unfolding cycle
  cycle_parts r rs = elim (Bool-cases (is_none (time_left f cfg r.spent))) [
    | inl none' ↦ rw none' refl
    | inr some' ↦ rw some' refl
  ]

  -- The worker in each place of the thread, when the passes `rs` have been handed over.
  abbrev pub At : Place W → List Readings → Worker W → Type ℓ
  At head rs w = w ≡ whole_passes rs
  At scanning rs w = w ≡ whole_passes rs
  At napping rs w = w ≡ whole_passes rs
  At returned rs w = w ≡ whole_passes rs
  At (handing r done list) rs w =
      (done ≡ next_work r rs) × (list ≡ alerts f r (next_work r rs).engine) × (w ≡ finished r rs)
  At (counting r) rs w = (older : List Readings) × (rs ≡ r ∷ older) × (w ≡ handed r older)
  At (resting r) rs w = (older : List Readings) × (rs ≡ r ∷ older) × (w ≡ count f (handed r older))

  pub shared-cycle :
      (r : Readings) (rs : List Readings) → (whole_passes (r ∷ rs)).shared ≡ (handed r rs).shared
  unfolding cycle
  shared-cycle r rs = refl

  pub At-shared :
      (p : Place W) (rs : List Readings) (w : Worker W)
      → At p rs w
      → w.shared ≡ (whole_passes rs).shared
  At-shared head rs w same = ap (λ x. x.shared) same
  At-shared scanning rs w same = ap (λ x. x.shared) same
  At-shared napping rs w same = ap (λ x. x.shared) same
  At-shared returned rs w same = ap (λ x. x.shared) same
  At-shared (handing r done list) rs w (q, l, same) = ap (λ x. x.shared) same
  At-shared (counting r) rs w (older, e, same) =
      ap (λ x. x.shared) same ∙ sym (ap (λ l. (whole_passes l).shared) e ∙ shared-cycle r older)
  At-shared (resting r) rs w (older, e, same) =
      ap (λ x. x.shared) same ∙ sym (ap (λ l. (whole_passes l).shared) e ∙ shared-cycle r older)

  -- Each round of `main`, newest first, has read the state that some of the passes left, and an
  -- older round that of no later pass.
  abbrev pub Seen : List Readings → List (Round W) → Type ℓ
  Seen rs [] = Unit
  Seen rs (r ∷ older) =
      (newer : List Readings) × (read : List Readings) × (rs ≡ newer ++ read)
      × (r.shared ≡ (whole_passes read).shared)
      × Seen read older

  pub Seen-later :
      (r : Readings) (rs : List Readings) (rounds : List (Round W))
      → Seen rs rounds
      → Seen (r ∷ rs) rounds
  Seen-later r rs [] seen = tt
  Seen-later r rs (x ∷ older) (newer, read, e, same, seen) =
      (r ∷ newer, read, ap (◌∷◌ r) e, same, seen)

  module _ (set : Settings) where
    -- What the rounds have written.
    abbrev pub all_written : List (Round W) → List Line
    all_written [] = []
    all_written (r ∷ older) = all_written older ++ shown f set r

    pub record Consistent (s : System W) : Type ℓ where
      pub passes : List Readings
      pub at : At s.place passes s.worker
      pub shared : s.worker.shared ≡ (whole_passes passes).shared
      pub rounds : List (Round W)
      pub written : s.written ≡ all_written rounds
      pub seen : Seen passes rounds

    pub moved :
        {s : System W} (c : Consistent s) (t : System W)
        → At t.place c.passes t.worker
        → t.written ≡ s.written
        → Consistent t
    moved c t at same = record {
      passes = c.passes;
      at = at;
      shared = At-shared t.place c.passes t.worker at;
      rounds = c.rounds;
      written = same ∙ c.written;
      seen = c.seen;
    }
