-- ===== src/Ring/Inv.antt =====
-- The representation invariant of `Ring`: the slots hold a queue, oldest first, and nothing else.
use vitals.Prelude.{
  ℕ, ◌+◌, ◌-◌, ◌%◌, ◌^◌, ◌≤◌, ◌<◌, ◌≡◌, refl, ◌≢◌, ◌⊎◌, inl, inr, some, arith, if◌then◌else◌, ltb,
  ◌==◌, ==_iff, word, ne→==_false, add_word, sub_word, Bool-cases, lt→ltb, ltb→lt, ap, ◌∙◌, length,
  set, length-set,
}
use native.Mathlib.Nat.{mod-eq_of_lt, mod-eq-sub-mod, mod-lt}
use vitals.Ring.{Ring, push, phys}

mod_low : (a i c : ℕ) → c < 2 ^ 63 → a + i < c → (a + i) % word % c ≡ a + i
mod_low a i c s h = rw (mod-eq_of_lt {n = a + i} {m = word} (omega arith)) (mod-eq_of_lt h)

mod_high : (a i c : ℕ) → c < 2 ^ 63 → a + i < c + c → c ≤ a + i → (a + i) % word % c ≡ a + i - c
mod_high a i c s h l =
    rw (mod-eq_of_lt {n = a + i} {m = word} (omega arith), mod-eq-sub-mod {n = a + i} {m = c} l)
      (mod-eq_of_lt (omega arith))

-- One place on, round the end.
mod_next : (h c : ℕ) → c < 2 ^ 63 → h < c → (h + 1) % word % c ≡ (if h + 1 == c then 0 else h + 1)
mod_next h c s k = elim (Bool-cases (h + 1 == c)) [
  | inl e ↦ rw e (mod_high h 1 c s (omega arith) (ground arith) ∙ ground arith)
  | inr e ↦ rw e (mod_low h 1 c s (ground arith))
]

-- One place back, round the start.
pub mod_back :
    (h c : ℕ)
    → c < 2 ^ 63
    → h < c
    → sub_word (add_word h c) 1 % c ≡ (if h == 0 then c - 1 else h - 1)
mod_back h c s k =
    let wide : sub_word (add_word h c) 1 ≡ h + c - 1 = omega arith in
    rw wide elim (Bool-cases (h == 0)) [
      | inl e ↦ rw e (
          let z = (==_iff h 0).0 e in
          ap (λ n. n % c) (omega arith) ∙ mod-eq_of_lt {n = c - 1} {m = c} (omega arith))
      | inr e ↦ rw e (
          let z : h ≢ 0 = ground arith in
          mod-eq-sub-mod {n = h + c - 1} {m = c} (omega arith)
          ∙ mod-eq_of_lt {n = h + c - 1 - c} {m = c} (omega arith)
          ∙ omega arith)
    ]

module _ {ℓ} {A : Type ℓ} where
  -- The fields in range; until the ring is full the live items start at slot 0.
  pub record IsValid (r : Ring A) : Type 0 where
    pub cap_pos : 0 < length r.slots
    pub cap_small : length r.slots < 2 ^ 63
    pub head_in : r.head < length r.slots
    pub len_in : r.len ≤ length r.slots
    pub partial : (r.len ≡ length r.slots) ⊎ (r.head ≡ r.len)

  pub phys_partial :
      (r : Ring A) (i : ℕ) → IsValid r → r.len < length r.slots → i < length r.slots → phys r i ≡ i
  unfolding phys
  phys_partial r i v lt h =
      rw (ne→==_false r.len (length r.slots) (omega arith))
        (mod_low 0 i (length r.slots) v.cap_small (omega arith) ∙ omega arith)

  pub phys_low :
      (r : Ring A) (i : ℕ)
      → IsValid r
      → r.len ≡ length r.slots
      → r.head + i < length r.slots
      → phys r i ≡ r.head + i
  unfolding phys
  phys_low r i v e h =
      rw ((==_iff r.len (length r.slots)).1 e) (mod_low r.head i (length r.slots) v.cap_small h)

  pub phys_high :
      (r : Ring A) (i : ℕ)
      → IsValid r
      → r.len ≡ length r.slots
      → i < length r.slots
      → length r.slots ≤ r.head + i
      → phys r i ≡ r.head + i - length r.slots
  unfolding phys
  phys_high r i v e h k =
      rw ((==_iff r.len (length r.slots)).1 e)
        (mod_high r.head i (length r.slots) v.cap_small (omega (arith, v.head_in)) k)

  pub phys_in : (r : Ring A) (i : ℕ) → IsValid r → phys r i < length r.slots
  unfolding phys
  phys_in r i v = mod-lt _ v.cap_pos

  -- No sum of `push`, `phys` or `newest` wraps.
  pub push_partial :
      (r : Ring A) (x : A)
      → IsValid r
      → r.len < length r.slots
      → ((push r x).1.len ≡ r.len + 1)
        × ((push r x).1.head ≡ (if r.len + 1 == length r.slots then 0 else r.len + 1))
  unfolding push
  push_partial r x v h = (
    rw (lt→ltb r.len (length r.slots) h) (mod-eq_of_lt (omega arith)),
    mod_next r.head (length r.slots) v.cap_small v.head_in
        ∙ ap (λ k. if k + 1 == length r.slots then 0 else k + 1) (omega arith),
  )

  pub push_full :
      (r : Ring A) (x : A)
      → IsValid r
      → r.len ≡ length r.slots
      → ((push r x).1.len ≡ r.len)
        × ((push r x).1.head ≡ (if r.head + 1 == length r.slots then 0 else r.head + 1))
  unfolding push
  push_full r x v h = (ground arith, mod_next r.head (length r.slots) v.cap_small v.head_in)

  pub slots-push : (r : Ring A) (x : A) → (push r x).1.slots ≡ set r.slots r.head (some x)
  unfolding push
  slots-push r x = refl

  pub length-slots-push : (r : Ring A) (x : A) → length (push r x).1.slots ≡ length r.slots
  length-slots-push r x = ap length (slots-push r x) ∙ length-set r.slots r.head (some x)

  -- `push` keeps the invariant.
  pub push-IsValid : (r : Ring A) (x : A) → IsValid r → IsValid (push r x).1
  push-IsValid r x v = elim (Bool-cases (ltb r.len (length r.slots))) [
    | inl lt ↦ ground (arith, push_partial r x v (ltb→lt _ _ lt), length-slots-push r x)
    | inr ge ↦ ground (arith, push_full r x v (ground arith), length-slots-push r x)
  ]
