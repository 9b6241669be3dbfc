-- ===== src/Units/Feeds.antt =====
-- About the printing of quantities: no line feed.
use vitals.Float.{Float, of_nat}
use vitals.Prelude.{ℕ, ◌≡◌, refl, List, [], ◌∷◌, map, All, arith, inl, inr, Bool-cases}
use vitals.Text.Feeds.{feeds, feeds-append, feeds-display}
use vitals.Text.Number.{display}
use vitals.Text.{Text, codes}
use vitals.Units.{scale, human_bytes, human_rate}

-- `{:.n}` prints a number, with no line feed.
abbrev pub HasNoFeed {ℓ} : {W : Type ℓ} → Float W → Type ℓ
HasNoFeed {W = W} f = (n : ℕ) (w : W) → feeds (f.fixed n w) ≡ 0

module _ {ℓ} {W : Type ℓ} (f : Float W) where
  feeds-scale :
      (v : W) (unit : Text) (more : List Text)
      → feeds unit ≡ 0
      → All (λ u. feeds u ≡ 0) more
      → feeds (scale f v unit more).1 ≡ 0
  unfolding scale
  feeds-scale v unit [] h all = h
  feeds-scale v unit (next ∷ more) h all = elim (Bool-cases (f.le (of_nat f 1024) v)) [
    | inl big ↦ rw big (feeds-scale (f.div v (of_nat f 1024)) next more all.0 all.1)
    | inr small ↦ rw small h
  ]

  pub feeds-human_bytes : HasNoFeed f → (n : ℕ) → feeds (human_bytes f n) ≡ 0
  unfolding human_bytes
  feeds-human_bytes plain n =
      let units = map codes ("K" ∷ "M" ∷ "G" ∷ "T" ∷ "P" ∷ []) in
      let r = scale f (of_nat f n) (codes "B") units in
      let unit = feeds-scale (of_nat f n) (codes "B") units refl (omega arith) in
      ground (
        arith,
        feeds-append (display n) (codes "B"),
        feeds-display n,
        feeds-append (f.fixed 0 r.0) r.1,
        feeds-append (f.fixed 1 r.0) r.1,
        plain 0 r.0,
        plain 1 r.0,
        unit,
      )

  pub feeds-human_rate : HasNoFeed f → (w : W) → feeds (human_rate f w) ≡ 0
  unfolding human_rate
  feeds-human_rate plain w = ground (
    arith,
    feeds-append (human_bytes f (f.to_u64 w)) (codes "/s"),
    feeds-human_bytes plain (f.to_u64 w),
  )
