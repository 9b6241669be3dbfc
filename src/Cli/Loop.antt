-- ===== src/Cli/Loop.antt =====
-- src/bin/vitals.rs: the loop of `main`. A round sees the shared state under the read lock, and the clock.
pub mod Ends
use vitals.Cli.Start.{Line, stdout, stderr}
use vitals.Cli.{Settings}
use vitals.Delta.{Snapshot}
use vitals.Float.{Float}
use vitals.Json.{render_json}
use vitals.Prelude.{
  ℕ, Bool, true, false, ◌||◌, Option, none, some, List, [], ◌∷◌, ◌++◌, if◌then◌else◌, leb,
}
use vitals.Sampler.{Shared}
use vitals.Screen.{render_text}
use vitals.Text.{Text, codes}

-- What one round of the loop meets: the shared state, and the time since the loop began.
pub record Round {ℓ} (W : Type ℓ) : Type ℓ where
  pub shared : Shared W
  pub elapsed : ℕ

-- How the loop is left: by `break`, by a panic, or not yet.
pub data End : Type 0 where
  broke panicked running : End

abbrev pub error_lines : Option Text → List Line
error_lines none = []
error_lines (some why) = stderr (codes "vitals: sample error: " ++ why) ∷ []

-- The tests that leave the loop.
unfoldable pub ends : Settings → ℕ → Bool
ends s elapsed = s.once || elim s.run_for [ none ↦ false | some d ↦ leb d elapsed ]

-- Home and clear to the end, before a frame that is not the only one.
abbrev pub home : Text
home = 0x1b ∷ b'[' ∷ b'H' ∷ 0x1b ∷ b'[' ∷ b'J' ∷ []

-- The end of a round, which has written `errors`: its line, the tests, and the rounds after it.
abbrev after : List Line → Option Line → Bool → List Line × End → List Line × End
after errors none stop rest = (errors, panicked)
after errors (some line) true rest = (errors ++ line ∷ [], broke)
after errors (some line) false rest = (errors ++ line ∷ [] ++ rest.0, rest.1)

module _ {ℓ} {W : Type ℓ} (f : Float W) where
  -- The `match` on the latest snapshot; `none` is a panic of the renderer.
  unfoldable pub show : Settings → Shared W → Option (Snapshot W) → Option Line
  unfolding render_json render_text
  show s g none = some (stderr (codes "vitals: waiting for first sample..."))
  show s g (some snap) =
      if s.json
      then some (stdout (render_json f snap g s.top ++ 10 ∷ []))
      else elim (render_text f snap g s.top s.once) [
        | none ↦ none
        | some text ↦ some (stdout (if s.once then text else home ++ text))
      ]

  unfoldable pub main_loop : Settings → List (Round W) → List Line × End
  main_loop s [] = ([], running)
  main_loop s (r ∷ rs) =
      after (error_lines r.shared.last_error) (show s r.shared r.shared.latest) (ends s r.elapsed)
        (main_loop s rs)
