-- ===== src/Prelude/Sorted.antt =====
-- About `sort_by` with a comparison that never puts each of two values behind the other.
use vitals.Prelude.{
  suc, length, ap, ◌∙◌, ◌≡◌, refl, subst, Bool, true, false, List, [], ◌∷◌, inl, inr, sort_insert,
  sort_by, Bool-cases, All,
}
use mathlib.Core.List.Permᴰ
use mathlib.Core.List.{Permᴰ}

module _ {ℓ} {A : Type ℓ} where
  pub Permᴰ-All {μ} : (P : A → Type μ) {xs ys : List A} → Permᴰ xs ys → All P xs → All P ys
  Permᴰ-All P Permᴰ.nil a = a
  Permᴰ-All P (Permᴰ.cons e p) (h, t) = (subst P e h, Permᴰ-All P p t)
  Permᴰ-All P (Permᴰ.swap e₁ e₂) a = (subst P e₂ a.1.0, (subst P e₁ a.0, a.1.1))
  Permᴰ-All P (Permᴰ.trans p q) a = Permᴰ-All P q (Permᴰ-All P p a)

  module _ (gt : A → A → Bool) where
    -- The first value of a list does not go before `x`.
    abbrev pub Precedes : A → List A → Type 0
    Precedes x [] = Unit
    Precedes x (y ∷ ys) = gt x y ≡ false

    -- No value of the list goes behind its successor.
    abbrev pub IsSorted : List A → Type 0
    IsSorted [] = Unit
    IsSorted (x ∷ xs) = Precedes x xs × IsSorted xs

    sort_insert-perm : (x : A) (xs : List A) → Permᴰ (sort_insert gt x xs) (x ∷ xs)
    unfolding sort_insert
    sort_insert-perm x [] = Permᴰ.refl _
    sort_insert-perm x (y ∷ ys) = elim (Bool-cases (gt x y)) [
      | inl behind ↦
          rw behind (Permᴰ.trans (Permᴰ.cons refl (sort_insert-perm x ys)) (Permᴰ.swap refl refl))
      | inr before ↦ rw before (Permᴰ.refl _)
    ]

    length-sort_insert : (x : A) (xs : List A) → length (sort_insert gt x xs) ≡ suc (length xs)
    unfolding sort_insert
    length-sort_insert x [] = refl
    length-sort_insert x (y ∷ ys) = elim (Bool-cases (gt x y)) [
      | inl behind ↦ rw behind (ap suc (length-sort_insert x ys))
      | inr before ↦ rw before refl
    ]

    pub length-sort_by : (xs : List A) → length (sort_by gt xs) ≡ length xs
    unfolding sort_by
    length-sort_by [] = refl
    length-sort_by (x ∷ xs) = length-sort_insert x (sort_by gt xs) ∙ ap suc (length-sort_by xs)

    pub sort_by-perm : (xs : List A) → Permᴰ (sort_by gt xs) xs
    unfolding sort_by
    sort_by-perm [] = Permᴰ.nil
    sort_by-perm (x ∷ xs) =
        Permᴰ.trans (sort_insert-perm x (sort_by gt xs)) (Permᴰ.cons refl (sort_by-perm xs))

    module _ (asymm : (x y : A) → gt x y ≡ true → gt y x ≡ false) where
      sort_insert-Precedes :
          (x y : A) (ys : List A)
          → gt y x ≡ false
          → Precedes y ys
          → Precedes y (sort_insert gt x ys)
      unfolding sort_insert
      sort_insert-Precedes x y [] h p = h
      sort_insert-Precedes x y (z ∷ zs) h p = elim (Bool-cases (gt x z)) [
        | inl behind ↦ rw behind p
        | inr before ↦ rw before h
      ]

      sort_insert-IsSorted : (x : A) (xs : List A) → IsSorted xs → IsSorted (sort_insert gt x xs)
      unfolding sort_insert
      sort_insert-IsSorted x [] s = (tt, tt)
      sort_insert-IsSorted x (y ∷ ys) (p, s) = elim (Bool-cases (gt x y)) [
        | inl behind ↦
            rw behind
              (sort_insert-Precedes x y ys (asymm x y behind) p, sort_insert-IsSorted x ys s)
        | inr before ↦ rw before (before, (p, s))
      ]

      pub sort_by-IsSorted : (xs : List A) → IsSorted (sort_by gt xs)
      unfolding sort_by
      sort_by-IsSorted [] = tt
      sort_by-IsSorted (x ∷ xs) = sort_insert-IsSorted x (sort_by gt xs) (sort_by-IsSorted xs)
