-- ===== src/Rules/Parse/Extra.antt =====
-- About tokens behind `clear <value>`.
use vitals.Float.{Float}
use vitals.Prelude.{◌≡◌, List, [], ◌∷◌, arith, length, ltb, true, false}
use vitals.Rules.Parse.{parse_clear, parse_tokens}
use vitals.Rules.{Metric, Op}
use vitals.Text.{Text}

module _ {ℓ} {W : Type ℓ} (f : Float W)
    (alert name target metric op value for_ dur clear bound : Text) where
  abbrev ten : List Text → List Text
  ten extra = alert ∷ name ∷ target ∷ metric ∷ op ∷ value ∷ for_ ∷ dur ∷ clear ∷ bound ∷ extra

  long_enough :
      (extra : List Text)
      → (ltb (length (ten extra)) 8 ≡ false)
        × (ltb (length (ten extra)) 10 ≡ false)
        × (ltb 8 (length (ten extra)) ≡ true)
  long_enough extra = ground arith

  parse_clear_extra :
      (m : Metric) (o : Op) (threshold : W) (extra : List Text)
      → parse_clear f (ten extra) m o threshold ≡ parse_clear f (ten []) m o threshold
  unfolding parse_clear
  parse_clear_extra m o threshold extra = let (a, b, c) = long_enough extra in rw (b, c)

  -- A rule line of ten tokens or more parses as its first ten tokens do: what stands behind `clear
  -- <value>` has no effect.
  pub parse_tokens_extra :
      (extra : List Text) → parse_tokens f (ten extra) ≡ parse_tokens f (ten [])
  unfolding parse_tokens
  parse_tokens_extra extra =
      let (a, b, c) = long_enough extra in
      simp (a, λ (m : Metric) (o : Op) (t : W). parse_clear_extra m o t extra)
