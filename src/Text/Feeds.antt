-- ===== src/Text/Feeds.antt =====
-- The line feeds of a text, and printed numbers that have none.
use vitals.Prelude.{
  ℕ, zero, suc, ◌+◌, ◌≡◌, refl, [], ◌∷◌, ◌++◌, if◌then◌else◌, ◌==◌, All, All-map, arith, ℤ,
  replicate,
}
use vitals.Text.Display.{IsNumeric, display-All, display_int-All}
use vitals.Text.Number.{display, display_int}
use vitals.Text.{Text}

abbrev pub feeds : Text → ℕ
feeds [] = 0
feeds (c ∷ s) = (if c == 10 then 1 else 0) + feeds s

pub feeds-append : (s t : Text) → feeds (s ++ t) ≡ feeds s + feeds t
feeds-append [] t = omega arith
feeds-append (c ∷ s) t = omega (arith, feeds-append s t)

feeds-Numeric : (s : Text) → All IsNumeric s → feeds s ≡ 0
feeds-Numeric [] all = refl
feeds-Numeric (c ∷ s) all = ground (arith, feeds-Numeric s all.1)

pub feeds-display_int : (z : ℤ) → feeds (display_int z) ≡ 0
feeds-display_int z = feeds-Numeric (display_int z) (display_int-All z)

pub feeds-display : (n : ℕ) → feeds (display n) ≡ 0
feeds-display n =
    feeds-Numeric (display n) (All-map (display n) (λ c h. ground arith) (display-All n))

pub feeds-replicate_space : (n : ℕ) → feeds (replicate n b' ') ≡ 0
feeds-replicate_space zero = refl
feeds-replicate_space (suc n) = omega (arith, feeds-replicate_space n)
