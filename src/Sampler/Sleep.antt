-- ===== src/Sampler/Sleep.antt =====
-- The sleep of the sampler's thread: it naps until the deadline, and looks at the stop flag between.
use vitals.Prelude.{
  ℕ, ◌+◌, ◌-◌, ◌*◌, ◌≤◌, ◌≡◌, ◌≢◌, Bool, true, List, [], ◌∷◌, ◌++◌, if◌then◌else◌, ltb, min, length,
  arith, Bool-cases, inl, inr,
}

-- One round of the loop: the clock at its test, the stop flag, and the clock again for the nap.
pub record Wake : Type 0 where
  pub test : ℕ
  pub stop : Bool
  pub again : ℕ

-- How the loop ends: past the deadline, with the return of the thread, or not yet.
pub data Slept : Type 0 where
  woke stopped asleep : Slept

-- `Duration::from_millis(50)`, in nanoseconds.
abbrev pub nap : ℕ
nap = 50000000

-- The naps and the end of the loop, over the rounds of this list.
unfoldable pub sleep : ℕ → List Wake → List ℕ × Slept
sleep deadline [] = ([], asleep)
sleep deadline (r ∷ rs) =
    let rest = sleep deadline rs in
    if ltb r.test deadline
    then if r.stop then ([], stopped) else (min (deadline - r.again) nap ∷ rest.0, rest.1)
    else ([], woke)

-- If a round of the sleep finds the stop flag set, the sleep has ended there at the latest, after
-- no more naps than there were rounds before.
pub sleep_stops :
    (deadline : ℕ) (before : List Wake) (r : Wake) (after : List Wake)
    → r.stop ≡ true
    → ((sleep deadline (before ++ r ∷ after)).1 ≢ asleep)
      × (length (sleep deadline (before ++ r ∷ after)).0 ≤ length before)
unfolding sleep
sleep_stops deadline [] r after h = elim (Bool-cases (ltb r.test deadline)) [
  | inl early ↦ rw (early, h) ((λ e. ground arith), omega arith)
  | inr late ↦ rw late ((λ e. ground arith), omega arith)
]
sleep_stops deadline (b ∷ before) r after h = elim (Bool-cases (ltb b.test deadline)) [
  | inr late ↦ rw late ((λ e. ground arith), omega arith)
  | inl early ↦ elim (Bool-cases b.stop) [
    | inl stop ↦ rw (early, stop) ((λ e. ground arith), omega arith)
    | inr on ↦
        let rest = sleep_stops deadline before r after h in
        rw (early, on) (rest.0, omega (arith, rest.1))
  ]
]

-- A clock that goes forward, and past each nap: from `t`, over these rounds.
abbrev pub Advances : ℕ → ℕ → List Wake → Type 0
Advances deadline t [] = Unit
Advances deadline t (r ∷ rs) =
    (t ≤ r.test)
    × (r.test ≤ r.again)
    × Advances deadline (r.again + min (deadline - r.again) nap) rs

-- On a clock that goes forward and past each nap, the sleep has ended after as many rounds as
-- cover, at 50 ms each, the time to the deadline and 50 ms more.
pub sleep_ends :
    (deadline t : ℕ) (rs : List Wake)
    → Advances deadline t rs
    → deadline - t + nap ≤ length rs * nap
    → (sleep deadline rs).1 ≢ asleep
unfolding sleep
sleep_ends deadline t [] a enough = absurd (omega arith)
sleep_ends deadline t (r ∷ rs) (from, on, a) enough = elim (Bool-cases (ltb r.test deadline)) [
  | inr late ↦ rw late (λ e. ground arith)
  | inl early ↦ elim (Bool-cases r.stop) [
    | inl stop ↦ rw (early, stop) (λ e. ground arith)
    | inr go ↦
        rw (early, go)
          (sleep_ends deadline (r.again + min (deadline - r.again) nap) rs a (ground arith))
  ]
]
