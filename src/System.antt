-- ===== src/System.antt =====
-- src/sampler.rs and src/bin/vitals.rs together: the sampler's thread, `main` and the handle between
-- them, as steps of either. The stop flag is read with `Relaxed`, so a read may miss that it was set:
-- the steps that find it clear do not ask for it to be.
pub mod Consistent
pub mod Steps
pub mod Frames
pub mod Stops
pub mod Returns
mod Tests
use vitals.Cli.Loop.{Round, error_lines, ends, show}
use vitals.Cli.Start.{Line}
use vitals.Cli.{Settings}
use vitals.Float.{Float}
use vitals.Prelude.{
  ℕ, ◌≡◌, Bool, true, false, Option, none, some, List, [], ◌∷◌, ◌++◌, map, if◌then◌else◌, add_word,
}
use vitals.Rules.Engine.{Engine}
use vitals.Rules.Evaluate.{active}
use vitals.Sampler.{
  Shared, SamplerConfig, Worker, Work, Readings, spawn, work, hand_over, time_left,
}
use vitals.Text.{Text}
use vitals.Units.{SysConst}

-- Where the thread stands: at the head of its loop, before and after the work, with the handover, the
-- count of ticks or the sleep before it, in the sleep, or past its return.
pub data Place {ℓ} (W : Type ℓ) : Type ℓ where
  head scanning napping returned : Place W
  handing : Readings → Work W → List (Text × Text × ℕ) → Place W
  counting resting : Readings → Place W

-- Where `main` stands: in its loop, past it, in the `join` of `stop`, about to drop the handle, in the
-- `join` of the drop, and past that.
pub data Main : Type 0 where
  looping leaving joining dropping ending over : Main

-- `worker` has the thread's variables and what it shares with the handle: the state behind the lock, and
-- the counters; `stop` is the flag, and `held` says whether the handle still has the thread to join.
pub record System {ℓ} (W : Type ℓ) : Type ℓ where
  pub worker : Worker W
  pub place : Place W
  pub stop : Bool
  pub held : Bool
  pub main : Main
  pub written : List Line

module _ {ℓ} {W : Type ℓ} (f : Float W) where
  -- The list that `active` leaves for the handover.
  abbrev pub alerts : Readings → Engine W → List (Text × Text × ℕ)
  alerts r e = map (λ a. (a.rule_name, a.subject, a.elapsed)) (active f r.clock e)

  -- The parts of a pass.
  abbrev pub finish : Work W → Worker W → Worker W
  finish done w = record w { engine = done.engine; prev = done.prev }

  abbrev pub hand : Work W → List (Text × Text × ℕ) → Worker W → Worker W
  hand done list w = record w { shared = hand_over f done list w.shared }

  abbrev pub count : Worker W → Worker W
  count w = record w { ticks = add_word w.ticks 1 }

  abbrev pub overrun : Worker W → Worker W
  overrun w = record w { overruns = add_word w.overruns 1 }

  -- `spawn`, and the loop of `main` about to begin.
  abbrev pub start : Engine W → SamplerConfig → System W
  start engine cfg = record {
    worker = spawn f engine cfg;
    place = head;
    stop = false;
    held = true;
    main = looping;
    written = [];
  }

  module _ (sys : SysConst) (cfg : SamplerConfig) (set : Settings) where
    pub data Step (s : System W) : System W → Type ℓ where
      -- The thread.
      enter : s.place ≡ head → Step s (record s { place = scanning })
      leave : s.place ≡ head → s.stop ≡ true → Step s (record s { place = returned })
      scan :
          (r : Readings) (done : Work W)
          → s.place ≡ scanning
          → done ≡ work f sys r.now r.result s.worker.engine s.worker.prev
          → Step s (record s {
            worker = finish done s.worker;
            place = handing r done (alerts r done.engine);
          })
      give :
          (r : Readings) (done : Work W) (list : List (Text × Text × ℕ))
          → s.place ≡ handing r done list
          → Step s (record s { worker = hand done list s.worker; place = counting r })
      tick :
          (r : Readings)
          → s.place ≡ counting r
          → Step s (record s { worker = count s.worker; place = resting r })
      late :
          (r : Readings)
          → s.place ≡ resting r
          → time_left f cfg r.spent ≡ none
          → Step s (record s { worker = overrun s.worker; place = head })
      rest :
          (r : Readings) (left : ℕ)
          → s.place ≡ resting r
          → time_left f cfg r.spent ≡ some left
          → Step s (record s { place = napping })
      wake : s.place ≡ napping → Step s (record s { place = head })
      quit : s.place ≡ napping → s.stop ≡ true → Step s (record s { place = returned })
      -- `main`: a round of its loop, a round that panics and so unwinds, `stop` up to `join` and behind
      -- it, and the drop of the handle up to `join` and behind it.
      frame :
          (elapsed : ℕ) (line : Line)
          → s.main ≡ looping
          → show f set s.worker.shared s.worker.shared.latest ≡ some line
          → Step s (record s {
            main = if ends set elapsed then leaving else looping;
            written = s.written ++ (error_lines s.worker.shared.last_error ++ line ∷ []);
          })
      panic :
          s.main ≡ looping
          → show f set s.worker.shared s.worker.shared.latest ≡ none
          → Step s (record s {
            main = dropping;
            written = s.written ++ error_lines s.worker.shared.last_error;
          })
      ask :
          s.main ≡ leaving
          → Step s
              (record s { stop = true; held = false; main = if s.held then joining else dropping })
      join : s.main ≡ joining → s.place ≡ returned → Step s (record s { main = dropping })
      discard :
          s.main ≡ dropping
          → Step s (record s { stop = true; held = false; main = if s.held then ending else over })
      end : s.main ≡ ending → s.place ≡ returned → Step s (record s { main = over })

    pub data Reach (s : System W) : System W → Type ℓ where
      here : Reach s s
      next : {t u : System W} → Reach s t → Step t u → Reach s u
