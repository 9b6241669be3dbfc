-- ===== src/System/Stops.antt =====
-- The order in which the thread and `main` end: what holds when `main` is past the drop of its handle.
use vitals.Cli.Loop.{ends}
use vitals.Cli.Start.{Line}
use vitals.Cli.{Settings}
use vitals.Float.{Float}
use vitals.Prelude.{ℕ, ◌≡◌, ◌⊎◌, true, false, inl, inr, Bool-cases, List, if◌then◌else◌, arith}
use vitals.Rules.Engine.{Engine}
use vitals.Sampler.{SamplerConfig}
use vitals.System.{
  returned, Main, looping, leaving, joining, dropping, ending, over, System, start, Step, enter,
  leave, scan, give, tick, late, rest, wake, quit, frame, panic, ask, join, discard, end, Reach,
  here, next,
}
use vitals.Units.{SysConst}

-- `main` waits for the thread.
abbrev pub IsWaiting : Main → Type 0
IsWaiting m = (m ≡ joining) ⊎ (m ≡ ending)

module _ {ℓ} {W : Type ℓ} (f : Float W) (sys : SysConst) (cfg : SamplerConfig)
    (set : Settings) where
  -- The thread returns only when it is asked to; it is asked by `stop` and the drop of the handle alone,
  -- either of which waits for it if it has not been waited for.
  pub record IsOrderly (s : System W) : Type ℓ where
    pub asked : s.place ≡ returned → s.stop ≡ true
    pub by_main : s.stop ≡ true → s.held ≡ false
    pub to_stop : s.held ≡ false → s.stop ≡ true
    pub free : IsWaiting s.main → s.held ≡ false
    pub gone : s.main ≡ over → s.held ≡ false
    pub kept : (s.main ≡ looping) ⊎ (s.main ≡ leaving) → s.held ≡ true
    pub joined : s.main ≡ over → s.place ≡ returned
    pub dropped : s.main ≡ dropping → s.held ≡ false → s.place ≡ returned

  -- What `stop` and the drop come to, by whether the handle holds the thread.
  ask-IsOrderly :
      {s : System W}
      → s.main ≡ leaving
      → IsOrderly s
      → IsOrderly
          (record s { stop = true; held = false; main = if s.held then joining else dropping })
  ask-IsOrderly {s} e o = rw (o.kept (inr e)) ground arith

  discard-IsOrderly :
      {s : System W}
      → s.main ≡ dropping
      → IsOrderly s
      → IsOrderly (record s { stop = true; held = false; main = if s.held then ending else over })
  discard-IsOrderly {s} e o = elim (Bool-cases s.held) [
    | inl held ↦ rw held ground arith
    | inr gone ↦ rw gone ground arith
  ]

  frame-IsOrderly :
      {s : System W} (elapsed : ℕ) (lines : List Line)
      → s.main ≡ looping
      → IsOrderly s
      → IsOrderly
          (record s { main = if ends set elapsed then leaving else looping; written = lines })
  frame-IsOrderly elapsed lines e o = elim (Bool-cases (ends set elapsed)) [
    | inl ends' ↦ rw ends' ground arith
    | inr on ↦ rw on ground arith
  ]

  Step-IsOrderly : {s t : System W} → Step f sys cfg set s t → IsOrderly s → IsOrderly t
  Step-IsOrderly (enter e) o = ground arith
  Step-IsOrderly (leave e stop) o = ground arith
  Step-IsOrderly (scan r done e is) o = ground arith
  Step-IsOrderly (give r done list e) o = ground arith
  Step-IsOrderly (tick r e) o = ground arith
  Step-IsOrderly (late r e t) o = ground arith
  Step-IsOrderly (rest r left e t) o = ground arith
  Step-IsOrderly (wake e) o = ground arith
  Step-IsOrderly (quit e stop) o = ground arith
  Step-IsOrderly (frame elapsed line e is) o = frame-IsOrderly elapsed _ e o
  Step-IsOrderly (panic e is) o = ground arith
  Step-IsOrderly (ask e) o = ask-IsOrderly e o
  Step-IsOrderly (join e p) o = ground arith
  Step-IsOrderly (discard e) o = discard-IsOrderly e o
  Step-IsOrderly (end e p) o = ground arith

  pub Reach-IsOrderly :
      (engine : Engine W) {s : System W} → Reach f sys cfg set (start f engine cfg) s → IsOrderly s
  Reach-IsOrderly engine here = ground arith
  Reach-IsOrderly engine (next r st) = Step-IsOrderly st (Reach-IsOrderly engine r)

  final : {s t : System W} → IsOrderly s → s.main ≡ over → Step f sys cfg set s t → ⊥
  final o m (enter e) = ground arith
  final o m (leave e stop) = ground arith
  final o m (scan r done e is) = ground arith
  final o m (give r done list e) = ground arith
  final o m (tick r e) = ground arith
  final o m (late r e t) = ground arith
  final o m (rest r left e t) = ground arith
  final o m (wake e) = ground arith
  final o m (quit e stop) = ground arith
  final o m (frame elapsed line e is) = ground arith
  final o m (panic e is) = ground arith
  final o m (ask e) = ground arith
  final o m (join e p) = ground arith
  final o m (discard e) = ground arith
  final o m (end e p) = ground arith

  -- When `main` is past the drop of its handle, be it behind `stop` or by a panic, the thread has
  -- returned and nothing happens any more: no pass, no handover and no frame, whatever happened
  -- before.
  pub stop-final :
      (engine : Engine W) {s : System W}
      → Reach f sys cfg set (start f engine cfg) s
      → s.main ≡ over
      → (s.place ≡ returned) × ((t : System W) → Step f sys cfg set s t → ⊥)
  stop-final engine r m = let o = Reach-IsOrderly engine r in (o.joined m, λ t st. final o m st)
