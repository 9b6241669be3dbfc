-- ===== src/Ring.antt =====
-- src/ring.rs: the fixed-capacity ring buffer. `usize` and `u64` sums keep their wrap-around.
-- A slice index out of range panics in the source; here it reads `none` and writes nothing. `Ring.Inv`
-- has the invariant that keeps every index in range.
pub mod Inv
pub mod Refine
pub mod View
mod Tests
use vitals.Prelude.{
  ℕ, zero, suc, ◌+◌, ◌-◌, ◌%◌, ◌^◌, max, Bool, Option, none, some, List, [], ◌∷◌, if◌then◌else◌,
  ltb, ◌==◌, length, get_elem?, set, replicate, filter_map, map, word, add_word, sub_word,
}

pub record Ring {ℓ} (A : Type ℓ) : Type ℓ where
  pub slots : List (Option A)
  pub head : ℕ
  pub len : ℕ
  pub pushed : ℕ

-- The numbers from `i` on, `n` of them: the iterator `i..i + n`.
abbrev pub range : ℕ → ℕ → List ℕ
range i zero = []
range i (suc n) = i ∷ range (suc i) n

module _ {ℓ} {A : Type ℓ} where
  unfoldable pub new : ℕ → Ring A
  new capacity = record { slots = replicate (max capacity 1) none; head = 0; len = 0; pushed = 0 }

  abbrev pub capacity : Ring A → ℕ
  capacity r = length r.slots

  unfoldable pub is_empty : Ring A → Bool
  is_empty r = r.len == 0

  unfoldable pub is_full : Ring A → Bool
  is_full r = r.len == length r.slots

  abbrev pub total_pushed : Ring A → ℕ
  total_pushed r = r.pushed

  -- What one slot holds.
  abbrev pub slot : List (Option A) → ℕ → Option A
  slot xs i = elim (get_elem? xs i) [ none ↦ none | some o ↦ o ]

  -- The evicted value and the new ring.
  unfoldable pub push : Ring A → A → Option A × Ring A
  push r v =
      let cap = length r.slots in
      (
        slot r.slots r.head,
        record {
          slots = set r.slots r.head (some v);
          head = add_word r.head 1 % cap;
          len = if ltb r.len cap then add_word r.len 1 else r.len;
          pushed = add_word r.pushed 1;
        },
      )

  unfoldable pub phys : Ring A → ℕ → ℕ
  phys r logical =
      let cap = length r.slots in
      let start = if r.len == cap then r.head else 0 in add_word start logical % cap

  unfoldable pub get : Ring A → ℕ → Option A
  get r logical = if ltb logical r.len then slot r.slots (phys r logical) else none

  unfoldable pub newest : Ring A → Option A
  newest r =
      let cap = length r.slots in
      if r.len == 0 then none else slot r.slots (sub_word (add_word r.head cap) 1 % cap)

  unfoldable pub oldest : Ring A → Option A
  unfolding get
  oldest r = get r 0

  unfoldable pub iter_chrono : Ring A → List A
  iter_chrono r = filter_map (get r) (range 0 r.len)

  unfoldable pub clear : Ring A → Ring A
  clear r = record r { slots = map (λ _. none) r.slots; head = 0; len = 0 }
