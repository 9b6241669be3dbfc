-- ===== src/Prelude/Map.antt =====
-- `HashMap`: an association list, whose order stands for the unspecified order of iteration.
use vitals.Prelude.Tests.{Eq, if◌then◌else◌, Bool-cases}
use vitals.Prelude.Lists.{All, filter}
use mathlib.Core.Path.{◌≡◌, refl, subst}
use mathlib.Core.Logic.{inl, inr}
use mathlib.Core.Bool.{Bool, true, false}
use mathlib.Core.List.{List, [], ◌∷◌}
use mathlib.Core.Option.{Option, none, some, some-injective}
use native.Mathlib.Omega.{arith}

module _ {ℓ κ} {K : Type ℓ} {V : Type κ} ⦃e : Eq K⦄ where
  -- `get`.
  unfoldable pub lookup : K → List (K × V) → Option V
  lookup k [] = none
  lookup k ((j, v) ∷ m) = if e.beq j k then some v else lookup k m

  -- `insert`, and a write through `get_mut`: the value of a key that is there is replaced in place.
  unfoldable pub insert : K → V → List (K × V) → List (K × V)
  insert k v [] = (k, v) ∷ []
  insert k v ((j, w) ∷ m) = if e.beq j k then (k, v) ∷ m else (j, w) ∷ insert k v m

  -- `remove`.
  unfoldable pub remove : K → List (K × V) → List (K × V)
  remove k [] = []
  remove k ((j, w) ∷ m) = if e.beq j k then remove k m else (j, w) ∷ remove k m

  pub lookup-insert :
      (k j : K) (v : V) (m : List (K × V))
      → lookup j (insert k v m) ≡ (if e.beq k j then some v else lookup j m)
  unfolding lookup insert
  lookup-insert k j v [] = refl
  lookup-insert k j v ((i, w) ∷ m) =
      ground (arith, e.beq_iff k j, e.beq_iff i k, e.beq_iff i j, lookup-insert k j v m)

  pub lookup-remove :
      (k j : K) (m : List (K × V))
      → lookup j (remove k m) ≡ (if e.beq k j then none else lookup j m)
  unfolding lookup remove
  lookup-remove k j [] = ground arith
  lookup-remove k j ((i, w) ∷ m) =
      ground (arith, e.beq_iff k j, e.beq_iff i k, e.beq_iff i j, lookup-remove k j m)

  -- No key stands twice.
  abbrev pub Unique : List (K × V) → Type κ
  Unique [] = Unit
  Unique ((k, v) ∷ m) = (lookup k m ≡ none) × Unique m

  insert_fresh :
      (k j : K) (v : V) (m : List (K × V))
      → e.beq j k ≡ false
      → lookup j m ≡ none
      → lookup j (insert k v m) ≡ none
  insert_fresh k j v m other fresh =
      ground (arith, lookup-insert k j v m, e.beq_iff j k, e.beq_iff k j)

  remove_fresh : (k j : K) (m : List (K × V)) → lookup j m ≡ none → lookup j (remove k m) ≡ none
  remove_fresh k j m fresh = ground (arith, lookup-remove k j m)

  pub insert-Unique : (k : K) (v : V) (m : List (K × V)) → Unique m → Unique (insert k v m)
  unfolding insert
  insert-Unique k v [] u = (unfold lookup in refl, tt)
  insert-Unique k v ((j, w) ∷ m) (fresh, u) = elim (Bool-cases (e.beq j k)) [
    | inl same ↦ let z = (e.beq_iff j k).0 same in rw same (rw z at fresh, u)
    | inr other ↦ rw other (insert_fresh k j v m other fresh, insert-Unique k v m u)
  ]

  pub remove-Unique : (k : K) (m : List (K × V)) → Unique m → Unique (remove k m)
  unfolding remove
  remove-Unique k [] u = tt
  remove-Unique k ((j, w) ∷ m) (fresh, u) = elim (Bool-cases (e.beq j k)) [
    | inl same ↦ rw same (remove-Unique k m u)
    | inr other ↦ rw other (remove_fresh k j m fresh, remove-Unique k m u)
  ]

  pub insert-All {μ} :
      (P : K × V → Type μ) (k : K) (v : V) (m : List (K × V))
      → P (k, v)
      → All P m
      → All P (insert k v m)
  unfolding insert
  insert-All P k v [] new old = (new, tt)
  insert-All P k v ((j, w) ∷ m) new old = elim (Bool-cases (e.beq j k)) [
    | inl same ↦ rw same (new, old.1)
    | inr other ↦ rw other (old.0, insert-All P k v m new old.1)
  ]

  pub remove-All {μ} :
      (P : K × V → Type μ) (k : K) (m : List (K × V)) → All P m → All P (remove k m)
  unfolding remove
  remove-All P k [] old = tt
  remove-All P k ((j, w) ∷ m) old = elim (Bool-cases (e.beq j k)) [
    | inl same ↦ rw same (remove-All P k m old.1)
    | inr other ↦ rw other (old.0, remove-All P k m old.1)
  ]

  pub All-lookup {μ} :
      (P : K × V → Type μ) (k : K) {v : V} (m : List (K × V))
      → All P m
      → lookup k m ≡ some v
      → P (k, v)
  unfolding lookup
  All-lookup P k [] all h = cc
  All-lookup P k {v} ((j, w) ∷ m) all h = elim (Bool-cases (e.beq j k)) [
    | inl same ↦
        let z = (e.beq_iff j k).0 same in
        let y : w ≡ v = some-injective _ _ (rw same at h) in
        subst (λ i. P (i, v)) z (subst (λ u. P (j, u)) y all.0)
    | inr other ↦ All-lookup P k m all.1 (rw other at h)
  ]

  -- What a filter leaves of a key.
  abbrev pub keep : (K × V → Bool) → K → Option V → Option V
  keep p k none = none
  keep p k (some v) = if p (k, v) then some v else none

  filter_fresh :
      (p : K × V → Bool) (k : K) (m : List (K × V))
      → lookup k m ≡ none
      → lookup k (filter p m) ≡ none
  unfolding lookup
  filter_fresh p k [] h = refl
  filter_fresh p k ((j, w) ∷ m) h = ground (arith, filter_fresh p k m)

  pub lookup-filter :
      (p : K × V → Bool) (k : K) (m : List (K × V))
      → Unique m
      → lookup k (filter p m) ≡ keep p k (lookup k m)
  unfolding lookup
  lookup-filter p k [] u = refl
  lookup-filter p k ((j, w) ∷ m) (fresh, u) =
      ground (arith, e.beq_iff j k, lookup-filter p k m u, filter_fresh p j m fresh)

  pub filter-Unique : (p : K × V → Bool) (m : List (K × V)) → Unique m → Unique (filter p m)
  filter-Unique p [] u = tt
  filter-Unique p ((j, w) ∷ m) (fresh, u) = elim (Bool-cases (p (j, w))) [
    | inl stays ↦ rw stays (filter_fresh p j m fresh, filter-Unique p m u)
    | inr goes ↦ rw goes (filter-Unique p m u)
  ]

pub filter-All {ℓ} : {A : Type ℓ} (p : A → Bool) (m : List A) → All (λ x. p x ≡ true) (filter p m)
filter-All p [] = tt
filter-All p (x ∷ m) = elim (Bool-cases (p x)) [
  | inl stays ↦ rw stays (stays, filter-All p m)
  | inr goes ↦ rw goes (filter-All p m)
]
