-- ===== src/Sampler/Thread.antt =====
-- The thread itself: passes and sleeps, until the stop flag is seen.
use vitals.Float.{Float}
use vitals.Prelude.{
  if◌then◌else◌, ◌⊎◌, ℕ, ◌+◌, ◌≡◌, refl, Bool, true, false, Option, none, some, List, [], ◌∷◌, All,
  inl, inr, Bool-cases,
}
use vitals.Sampler.Cycles.{cycles}
use vitals.Sampler.Sleep.{Slept, Wake, woke, stopped, asleep, sleep}
use vitals.Sampler.{SamplerConfig, Worker, Readings, cycle, time_left}
use vitals.Units.{SysConst}

-- One round of the outer loop: the stop flag at its head, what the pass reads, the clock at which the
-- sleep begins, and the rounds of the sleep.
pub record Pass : Type 0 where
  pub stop : Bool
  pub readings : Readings
  pub began : ℕ
  pub wakes : List Wake

-- How the sleep of a round ends; a late round has none.
abbrev slept : Option ℕ → ℕ → List Wake → Slept
slept none began wakes = woke
slept (some rest) began wakes = (sleep (began + rest) wakes).1

-- What follows the sleep: the next round, the return of the thread, or nothing yet, while it goes on.
abbrev on_from {ℓ} : {A : Type ℓ} → Slept → A → A × Bool → A × Bool
on_from woke w rest = rest
on_from stopped w rest = (w, true)
on_from asleep w rest = (w, false)

Slept-cases : (s : Slept) → (s ≡ woke) ⊎ ((s ≡ stopped) ⊎ (s ≡ asleep))
Slept-cases woke = inl refl
Slept-cases stopped = inr (inl refl)
Slept-cases asleep = inr (inr refl)

module _ {ℓ} {W : Type ℓ} (f : Float W) (sys : SysConst) (cfg : SamplerConfig) where
  -- The worker when these rounds are over, and whether the thread has returned.
  unfoldable pub thread : List Pass → Worker W → Worker W × Bool
  unfolding cycle sleep time_left
  thread [] w = (w, false)
  thread (p ∷ ps) w =
      if p.stop
      then (w, true)
      else let w' = cycle f sys cfg p.readings w in
        let rest = thread ps w' in
        on_from (slept (time_left f cfg p.readings.spent) p.began p.wakes) w' rest

  -- What the thread has done, wherever it is stopped: a whole number of passes on top of those
  -- before, each on the readings of one of the rounds.
  pub record Done {κ} (P : Readings → Type κ) (start w : Worker W) : Type (ℓ ⊔ κ) where
    pub rs : List Readings
    pub is : w ≡ cycles f sys cfg rs start
    pub all : All P rs

  thread_from {κ} :
      (P : Readings → Type κ) (ps : List Pass) (start : Worker W) (rs : List Readings)
      → All (λ (p : Pass). P p.readings) ps
      → All P rs
      → Done P start (thread ps (cycles f sys cfg rs start)).0
  unfolding thread
  thread_from P [] start rs all old = record { rs = rs; is = refl; all = old }
  thread_from P (p ∷ ps) start rs all old = elim (Bool-cases p.stop) [
    | inl stop ↦ rw stop (record { rs = rs; is = refl; all = old })
    | inr on ↦ elim (Slept-cases (slept (time_left f cfg p.readings.spent) p.began p.wakes)) [
      | inl go ↦ rw (on, go) (thread_from P ps start (p.readings ∷ rs) all.1 (all.0, old))
      | inr (inl back) ↦
          rw (on, back) (record { rs = p.readings ∷ rs; is = refl; all = (all.0, old) })
      | inr (inr still) ↦
          rw (on, still) (record { rs = p.readings ∷ rs; is = refl; all = (all.0, old) })
    ]
  ]

  -- From any worker, and wherever the stop flag is seen, at the head of the loop or in a sleep, the
  -- thread leaves what a list of whole passes leaves, whose readings have every property that those
  -- of all rounds have.
  pub thread-Done {κ} :
      (P : Readings → Type κ) (ps : List Pass) (w : Worker W)
      → All (λ (p : Pass). P p.readings) ps
      → Done P w (thread ps w).0
  thread-Done P ps w all = thread_from P ps w [] all tt
