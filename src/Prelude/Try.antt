-- ===== src/Prelude/Try.antt =====
-- `Result`, with `?` as its bind.
use mathlib.Core.Path.{◌≡◌, refl}

pub data Result {ℓ κ} (E : Type ℓ) (A : Type κ) : Type (ℓ ⊔ κ) where
  ok : A → Result E A
  err : E → Result E A

module _ {ℓ κ μ} {E : Type ℓ} {A : Type κ} {B : Type μ} where
  abbrev pub try : Result E A → (A → Result E B) → Result E B
  try (ok a) f = f a
  try (err e) f = err e

  -- Inversion of a chain that succeeds.
  pub try-eq-ok :
      (m : Result E A) (f : A → Result E B) {b : B}
      → try m f ≡ ok b
      → (a : A) × (m ≡ ok a) × (f a ≡ ok b)
  try-eq-ok (ok a) f h = (a, refl, h)
  try-eq-ok (err e) f h = cc
