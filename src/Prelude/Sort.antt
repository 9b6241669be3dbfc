-- ===== src/Prelude/Sort.antt =====
-- `sort_by`, a stable sort.
use vitals.Prelude.Tests.{if◌then◌else◌}
use mathlib.Core.Bool.{Bool}
use mathlib.Core.List.{List, [], ◌∷◌}

module _ {ℓ} {A : Type ℓ} (gt : A → A → Bool) where
  -- `gt x y`: the comparison puts `x` after `y`.
  unfoldable pub sort_insert : A → List A → List A
  sort_insert x [] = x ∷ []
  sort_insert x (y ∷ ys) = if gt x y then y ∷ sort_insert x ys else x ∷ y ∷ ys

  unfoldable pub sort_by : List A → List A
  unfolding sort_insert
  sort_by [] = []
  sort_by (x ∷ xs) = sort_insert x (sort_by xs)
