-- ===== src/Screen/Bars.antt =====
-- About the line of blocks: `sparkline` indexes `BLOCKS` within its range.
use vitals.Float.{Float, IsOrdered, IsRounding, of_nat, clamp}
use vitals.Prelude.{
  ℕ, ◌-◌, ◌<◌, ◌≤◌, ◌≡◌, refl, ap, subst, Bool, true, false, some, List, [], ◌∷◌, length,
  get_elem?_lt, All, All-get_elem?, inl, inr, Bool-cases, arith, if◌then◌else◌, suc, map, drop,
  ◌++◌,
}
use vitals.Delta.{Snapshot}
use vitals.Ring.{iter_chrono}
use vitals.Sampler.{Shared}
use vitals.Screen.{
  blocks, newline, level, bars, sparkline, spark_line, head_line, body, render_text,
}
use vitals.Text.{Text, codes}

-- One of the eight blocks.
abbrev pub IsBlock : ℕ → Type 0
IsBlock c = (0x2581 ≤ c) × (c ≤ 0x2588)

module _ {ℓ} {W : Type ℓ} (f : Float W) (ord : IsOrdered f) (rounding : IsRounding f) where
  -- What the clamp leaves is at most 1, if it is a number.
  clamped-le :
      (x : W)
      → let c = clamp f (of_nat f 0) (of_nat f 1) x in f.le c c ≡ true → f.le c (of_nat f 1) ≡ true
  unfolding clamp
  clamped-le x h = ground (
    arith,
    ord.int_mono 0 1 (omega arith),
    ord.int_mono 1 1 (omega arith),
    ord.le_of_not_lt (of_nat f 1) x,
    ord.le_of_not_lt x (of_nat f 0),
  )

  number_index :
      (c : W) → f.le c (of_nat f 1) ≡ true → f.to_u64 (f.round (f.mul c (of_nat f 7))) < 8
  number_index c h =
      let scaled =
        subst (λ y. f.le (f.mul c (of_nat f 7)) y ≡ true) (rounding.one_scale 7)
          (rounding.scale_mono c (of_nat f 1) 7 (omega arith) h) in
      let rounded =
        subst (λ y. f.le (f.round (f.mul c (of_nat f 7))) y ≡ true) (rounding.round_whole 7)
          (rounding.round_mono _ _ scaled) in
      omega (arith, rounding.to_u64_mono _ _ rounded, rounding.to_u64_whole 7 (omega arith))

  nan_index : (c : W) → f.le c c ≡ false → f.to_u64 (f.round (f.mul c (of_nat f 7))) < 8
  nan_index c h =
      omega (arith, rounding.to_u64_nan _ (rounding.round_nan _ (rounding.scale_nan c 7 h)))

  level_lt : (max v : W) → level f max v < length blocks
  unfolding level
  level_lt max v =
      let c = clamp f (of_nat f 0) (of_nat f 1) (f.div v max) in
      elim (Bool-cases (f.le c c)) [
        | inl number ↦ number_index c (clamped-le (f.div v max) number)
        | inr nan ↦ nan_index c nan
      ]

  bars-some :
      (max : W) (vals : List W)
      → (t : Text) × (bars f max vals ≡ some t) × (length t ≡ length vals) × All IsBlock t
  unfolding bars
  bars-some max [] = ([], refl, refl, tt)
  bars-some max (v ∷ vals) =
      let (c, at) = get_elem?_lt blocks (level f max v) (level_lt max v) in
      let (t, is, size, all) = bars-some max vals in
      let block = All-get_elem? IsBlock blocks (level f max v) (omega arith) at in
      (c ∷ t, rw (at, is) refl, ap suc size, (block, all))

  -- With ordered arithmetic, and rounding that keeps order and whole numbers, the line has one
  -- block for each value, whatever the values and the scale are, NaN included: the index never
  -- leaves the table of blocks.
  pub sparkline-IsBlock :
      (vals : List W) (max : W)
      → (t : Text) × (sparkline f vals max ≡ some t) × (length t ≡ length vals) × All IsBlock t
  unfolding sparkline
  sparkline-IsBlock vals max = bars-some (if f.le max (of_nat f 0) then of_nat f 1 else max) vals

  spark_line-some :
      (shared : Shared W) (plain : Bool) → (t : Text) × (spark_line f shared plain ≡ some t)
  unfolding spark_line
  spark_line-some shared true = ([], refl)
  spark_line-some shared false =
      let hist = map (λ h. h.cpu_pct) (iter_chrono shared.history) in
      let (t, is, size, all) = sparkline-IsBlock (drop (length hist - 60) hist) (of_nat f 100) in
      (codes "cpu 60s  " ++ t ++ newline, rw is refl)

  -- So the whole frame is drawn.
  pub render_text-some :
      (snap : Snapshot W) (shared : Shared W) (top : ℕ) (plain : Bool)
      → (t : Text) × (render_text f snap shared top plain ≡ some t)
  render_text-some snap shared top plain =
      let (spark, is) = spark_line-some shared plain in
      (
        head_line f snap.system ++ (spark ++ body f snap shared top),
        unfold render_text in rw is refl,
      )
