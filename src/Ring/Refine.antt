-- ===== src/Ring/Refine.antt =====
-- The ring against a bounded queue.
use vitals.Prelude.{
  ℕ, ◌+◌, ◌-◌, ◌≤◌, ◌<◌, ◌≡◌, sym, ap, ◌∙◌, ◌≢◌, ◌⊎◌, inl, inr, true, false, Option, none, some,
  List, [], ◌∷◌, ◌++◌, arith, if◌then◌else◌, ltb, ltb→lt, ◌==◌, ==_iff, Bool-cases, length,
  get_elem?, set, drop, length-append, length-drop, get_elem?-set_self, get_elem?-set_ne,
  get_elem?-append_left, get_elem?-concat, get_elem?-drop_one,
}
use vitals.Ring.{Ring, push, phys, slot}
use vitals.Ring.Inv.{
  IsValid, phys_partial, phys_low, phys_high, push_partial, push_full, slots-push,
  length-slots-push, push-IsValid,
}

module _ {ℓ} {A : Type ℓ} where
  -- The bounded queue: one item more, and the oldest gone if there was no room.
  abbrev pub push_queue : ℕ → List A → A → List A
  push_queue n q v = (if length q == n then drop 1 q else q) ++ (v ∷ [])

  -- The ring holds the items of `q`, oldest first.
  pub record Holds (r : Ring A) (q : List A) : Type ℓ where
    pub valid : IsValid r
    pub len_is : r.len ≡ length q
    pub item : (i : ℕ) → i < length q → slot r.slots (phys r i) ≡ get_elem? q i
    pub rest : (i : ℕ) → r.len < length r.slots → r.len ≤ i → slot r.slots i ≡ none

  slot-set_self :
      (xs : List (Option A)) (i : ℕ) (x : A) → i < length xs → slot (set xs i (some x)) i ≡ some x
  slot-set_self xs i x h = rw (get_elem?-set_self xs i (some x) h, slot)

  slot-set_ne :
      (xs : List (Option A)) (i j : ℕ) (x : A) → i ≢ j → slot (set xs i (some x)) j ≡ slot xs j
  slot-set_ne xs i j x h = rw (get_elem?-set_ne xs i j (some x) h, slot)

  -- Until the ring is full, and when it has just become so, item `i` stands in slot `i`.
  phys_after_partial :
      (r : Ring A) (x : A) (i : ℕ)
      → IsValid r
      → r.len < length r.slots
      → i ≤ r.len
      → phys (push r x).1 i ≡ i
  phys_after_partial r x i v lt h =
      let valid = push-IsValid r x v in
      let (l, hd) = push_partial r x v lt in
      let same = length-slots-push r x in
      elim (Bool-cases (r.len + 1 == length r.slots)) [
        | inl e ↦
            let e' = (==_iff (r.len + 1) (length r.slots)).0 e in
            phys_low (push r x).1 i valid (omega arith) (rw (hd, e) (omega arith))
            ∙ rw (hd, e) (omega arith)
        | inr e ↦
            let e' : r.len + 1 ≢ length r.slots = ground arith in
            phys_partial (push r x).1 i valid (omega arith) (omega arith)
      ]

  -- Once it is full, a push turns the ring by one place, and the last place is the old start.
  phys_after_full :
      (r : Ring A) (x : A) (i : ℕ)
      → IsValid r
      → r.len ≡ length r.slots
      → i + 1 < length r.slots
      → (phys (push r x).1 i ≡ phys r (i + 1)) × (r.head ≢ phys r (i + 1))
  phys_after_full r x i v full h =
      let valid = push-IsValid r x v in
      let (l, hd) = push_full r x v full in
      let same = length-slots-push r x in
      elim (Bool-cases (r.head + 1 == length r.slots)) [
        | inl e ↦
            let e' = (==_iff (r.head + 1) (length r.slots)).0 e in
            let z : (push r x).1.head ≡ 0 = hd ∙ rw e in
            let before = phys_low (push r x).1 i valid (omega arith) (omega arith) in
            let after = phys_high r (i + 1) v full h (omega arith) in (omega arith, omega arith)
        | inr e ↦
            let e' : r.head + 1 ≢ length r.slots = ground arith in
            let z : (push r x).1.head ≡ r.head + 1 = hd ∙ rw e in
            turn z (Bool-cases (ltb (r.head + 1 + i) (length r.slots)))
      ]
    where
      turn :
          (push r x).1.head ≡ r.head + 1
          → (ltb (r.head + 1 + i) (length r.slots) ≡ true)
            ⊎ (ltb (r.head + 1 + i) (length r.slots) ≡ false)
          → (phys (push r x).1 i ≡ phys r (i + 1)) × (r.head ≢ phys r (i + 1))
      turn z (inl lt) =
          let valid = push-IsValid r x v in
          let (l, hd) = push_full r x v full in
          let same = length-slots-push r x in
          let k = ltb→lt (r.head + 1 + i) (length r.slots) lt in
          let before = phys_low (push r x).1 i valid (omega arith) (omega arith) in
          let after = phys_low r (i + 1) v full (omega arith) in (omega arith, omega arith)
      turn z (inr ge) =
          let valid = push-IsValid r x v in
          let (l, hd) = push_full r x v full in
          let same = length-slots-push r x in
          let k : length r.slots ≤ r.head + 1 + i = ground arith in
          let before = phys_high (push r x).1 i valid (omega arith) (omega arith) (omega arith) in
          let after = phys_high r (i + 1) v full h (omega arith) in (omega arith, omega arith)

  phys_last_full :
      (r : Ring A) (x : A)
      → IsValid r
      → r.len ≡ length r.slots
      → phys (push r x).1 (length r.slots - 1) ≡ r.head
  phys_last_full r x v full =
      let valid = push-IsValid r x v in
      let (l, hd) = push_full r x v full in
      let same = length-slots-push r x in
      elim (Bool-cases (r.head + 1 == length r.slots)) [
        | inl e ↦
            let e' = (==_iff (r.head + 1) (length r.slots)).0 e in
            let z : (push r x).1.head ≡ 0 = hd ∙ rw e in
            phys_low (push r x).1 (length r.slots - 1) valid (omega arith) (omega arith)
            ∙ omega arith
        | inr e ↦
            let e' : r.head + 1 ≢ length r.slots = ground arith in
            let z : (push r x).1.head ≡ r.head + 1 = hd ∙ rw e in
            phys_high (push r x).1 (length r.slots - 1) valid (omega arith) (omega arith)
              (omega arith)
            ∙ omega arith
      ]

  module _ {r : Ring A} {q : List A} (x : A) (h : Holds r q) where
    item_partial :
        (i : ℕ)
        → r.len < length r.slots
        → i < length (q ++ x ∷ [])
        → slot (push r x).1.slots (phys (push r x).1 i) ≡ get_elem? (q ++ x ∷ []) i
    item_partial i lt k =
        let n = length-append q (x ∷ []) in
        let m = h.len_is in
        rw (slots-push r x, phys_after_partial r x i h.valid lt (omega arith))
          elim (Bool-cases (i == length q)) [
            | inl e ↦
                let e' = (==_iff i (length q)).0 e in
                let start : r.head ≡ i = omega (arith, h.valid.partial) in
                rw (start, e')
                  (slot-set_self r.slots (length q) x (omega arith) ∙ sym (get_elem?-concat q x))
            | inr e ↦
                let e' : i ≢ length q = ground arith in
                let start : r.head ≢ i = omega (arith, h.valid.partial) in
                slot-set_ne r.slots r.head i x start
                ∙ ap (slot r.slots) (sym (phys_partial r i h.valid lt (omega arith)))
                ∙ h.item i (omega arith)
                ∙ sym (get_elem?-append_left q (x ∷ []) i (omega arith))
          ]

    item_full :
        (i : ℕ)
        → r.len ≡ length r.slots
        → i < length (drop 1 q ++ x ∷ [])
        → slot (push r x).1.slots (phys (push r x).1 i) ≡ get_elem? (drop 1 q ++ x ∷ []) i
    item_full i full k =
        let n = length-append (drop 1 q) (x ∷ []) in
        let d = length-drop 1 q in
        let m = h.len_is in
        let pos = h.valid.cap_pos in
        elim (Bool-cases (i == length (drop 1 q))) [
          | inl e ↦
              let e' = (==_iff i (length (drop 1 q))).0 e in
              let last : i ≡ length r.slots - 1 = omega arith in
              rw (slots-push r x, last, phys_last_full r x h.valid full)
                (slot-set_self r.slots r.head x h.valid.head_in
                  ∙ sym (get_elem?-concat (drop 1 q) x)
                  ∙ ap (get_elem? (drop 1 q ++ x ∷ [])) (omega arith))
          | inr e ↦
              let e' : i ≢ length (drop 1 q) = ground arith in
              let (turned, other) = phys_after_full r x i h.valid full (omega arith) in
              rw (slots-push r x, turned)
                (slot-set_ne r.slots r.head (phys r (i + 1)) x other
                  ∙ h.item (i + 1) (omega arith)
                  ∙ sym (get_elem?-drop_one q i)
                  ∙ sym (get_elem?-append_left (drop 1 q) (x ∷ []) i (omega arith)))
        ]

    evicted_partial : r.len < length r.slots → (push r x).0 ≡ none
    unfolding push
    evicted_partial lt = h.rest r.head lt (omega (arith, h.valid.partial))

    evicted_full : r.len ≡ length r.slots → (push r x).0 ≡ get_elem? q 0
    unfolding push
    evicted_full full =
        ap (slot r.slots)
          (omega (arith, phys_low r 0 h.valid full (omega (arith, h.valid.head_in))))
        ∙ h.item 0 (omega (arith, h.valid.cap_pos, h.len_is))

    rest_partial :
        (i : ℕ)
        → r.len < length r.slots
        → (push r x).1.len < length (push r x).1.slots
        → (push r x).1.len ≤ i
        → slot (push r x).1.slots i ≡ none
    rest_partial i lt _ k =
        let (l, _) = push_partial r x h.valid lt in
        rw (slots-push r x) (
          slot-set_ne r.slots r.head i x (omega (arith, h.valid.partial))
          ∙ h.rest i lt (omega arith))

    -- On a ring that holds a queue, `push` gives a ring that holds the queue with the value at its
    -- end and, if it was full, without its oldest value; it returns that value, and else none.
    pub push-Holds :
        Holds (push r x).1 (push_queue (length r.slots) q x)
        × ((push r x).0 ≡ (if length q == length r.slots then get_elem? q 0 else none))
    push-Holds = elim (Bool-cases (length q == length r.slots)) [
      | inl e ↦
          let full : r.len ≡ length r.slots = h.len_is ∙ (==_iff _ _).0 e in
          let (l, _) = push_full r x h.valid full in
          rw e (
            record {
              valid = push-IsValid r x h.valid;
              len_is = omega (
                arith,
                length-append (drop 1 q) (x ∷ []),
                length-drop 1 q,
                h.len_is,
                h.valid.cap_pos,
              );
              item = λ i. item_full i full;
              rest = λ i lt. absurd (omega (arith, length-slots-push r x));
            },
            evicted_full full,
          )
      | inr e ↦
          let ne : length q ≢ length r.slots = ground arith in
          let lt : r.len < length r.slots = omega (arith, h.len_is, h.valid.len_in) in
          let (l, _) = push_partial r x h.valid lt in
          rw e (
            record {
              valid = push-IsValid r x h.valid;
              len_is = omega (arith, length-append q (x ∷ []), h.len_is);
              item = λ i. item_partial i lt;
              rest = λ i. rest_partial i lt;
            },
            evicted_partial lt,
          )
    ]
