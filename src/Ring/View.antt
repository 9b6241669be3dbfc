-- ===== src/Ring/View.antt =====
-- What a client reads from a ring, and what a ring holds after any sequence of pushes.
use vitals.Prelude.{
  ℕ, zero, suc, ◌+◌, ◌-◌, ◌≤◌, ◌<◌, ◌^◌, max, ◌≡◌, refl, sym, ap, ◌∙◌, ◌≢◌, inl, inr, Option, none,
  some, List, [], ◌∷◌, ◌++◌, arith, if◌then◌else◌, ltb, ltb→lt, ◌==◌, ==_iff, Bool-cases, length,
  get_elem?, drop, replicate, map, filter_map, length-replicate, length-append, length-drop,
  get_elem?_ge, append_assoc, append-nil, drop-drop_one, drop_one-append, subst,
}
use vitals.Ring.{
  Ring, new, push, phys, get, slot, clear, range, iter_chrono, newest, oldest, capacity, is_empty,
  is_full,
}
use vitals.Ring.Inv.{length-slots-push, mod_back, IsValid, phys_partial, phys_low, phys_high}
use vitals.Ring.Refine.{Holds, push_queue, push-Holds}

module _ {ℓ} {A : Type ℓ} where
  slot-replicate : (n i : ℕ) → slot (replicate {A = Option A} n none) i ≡ none
  slot-replicate zero i = refl
  slot-replicate (suc n) zero = refl
  slot-replicate (suc n) (suc i) = slot-replicate n i

  slot-map-none : (xs : List (Option A)) (i : ℕ) → slot (map {B = Option A} (λ _. none) xs) i ≡ none
  slot-map-none [] i = refl
  slot-map-none (x ∷ xs) zero = refl
  slot-map-none (x ∷ xs) (suc i) = slot-map-none xs i

  length-map-none : (xs : List (Option A)) → length (map {B = Option A} (λ _. none) xs) ≡ length xs
  length-map-none [] = refl
  length-map-none (x ∷ xs) = ap suc (length-map-none xs)

  -- A new ring is empty, and has room for at least one item.
  pub new-Holds :
      (c : ℕ) → c < 2 ^ 63 → Holds (new {A = A} c) [] × (length (new {A = A} c).slots ≡ max c 1)
  unfolding new
  new-Holds c h =
      let n = length-replicate {A = Option A} (max c 1) none in
      (
        record {
          valid = record {
            cap_pos = omega arith;
            cap_small = omega arith;
            head_in = omega arith;
            len_in = omega arith;
            partial = inr refl;
          };
          len_is = refl;
          item = λ i k. absurd (omega arith);
          rest = λ i _ _. slot-replicate (max c 1) i;
        },
        n,
      )

  -- On a ring that holds a queue, `clear` gives a ring that holds the empty queue, in as many
  -- slots.
  pub clear-Holds :
      {r : Ring A} {q : List A}
      → Holds r q
      → Holds (clear r) [] × (length (clear r).slots ≡ length r.slots)
  unfolding clear
  clear-Holds {r} h =
      let n = length-map-none r.slots in
      let pos = h.valid.cap_pos in
      let small = h.valid.cap_small in
      (
        record {
          valid = record {
            cap_pos = omega arith;
            cap_small = omega arith;
            head_in = omega arith;
            len_in = omega arith;
            partial = inr refl;
          };
          len_is = refl;
          item = λ i k. absurd (omega arith);
          rest = λ i _ _. slot-map-none r.slots i;
        },
        n,
      )

  -- On a ring that holds a queue, `get` at any index is the queue's value there, and none past its
  -- end.
  get-Holds : {r : Ring A} {q : List A} (i : ℕ) → Holds r q → get r i ≡ get_elem? q i
  unfolding get
  get-Holds {r} {q} i h = elim (Bool-cases (ltb i r.len)) [
    | inl lt ↦ rw lt (h.item i (omega (arith, ltb→lt i r.len lt, h.len_is)))
    | inr ge ↦ rw ge (sym (get_elem?_ge q i (ground (arith, h.len_is))))
  ]

  filter_map-range :
      (f : ℕ → Option A) (q : List A) (i : ℕ)
      → ((j : ℕ) → j < length q → f (i + j) ≡ get_elem? q j)
      → filter_map f (range i (length q)) ≡ q
  filter_map-range f [] i h = refl
  filter_map-range f (x ∷ q) i h =
      let first : f i ≡ some x = ap f (omega arith) ∙ h 0 (omega arith) in
      rw first (
        ap (◌∷◌ x)
          (filter_map-range f q (suc i) (λ j k. ap f (omega arith) ∙ h (suc j) (omega arith))))

  -- `iter_chrono` lists the queue, oldest first.
  iter_chrono-Holds : {r : Ring A} {q : List A} → Holds r q → iter_chrono r ≡ q
  unfolding iter_chrono
  iter_chrono-Holds {r} {q} h =
      ap (λ n. filter_map (get r) (range 0 n)) h.len_is
      ∙ filter_map-range (get r) q 0 (λ j k. ap (get r) (omega arith) ∙ get-Holds j h)

  phys_newest :
      (r : Ring A)
      → IsValid r
      → r.len ≢ 0
      → phys r (r.len - 1) ≡ (if r.head == 0 then length r.slots - 1 else r.head - 1)
  phys_newest r v ne = elim (Bool-cases (r.head == 0)) [
    | inl e ↦ rw e (
        let z = (==_iff r.head 0).0 e in
        let full : r.len ≡ length r.slots = omega (arith, v.partial) in
        phys_low r (r.len - 1) v full (omega arith) ∙ omega arith)
    | inr e ↦ rw e (
        let z : r.head ≢ 0 = ground arith in
        elim (Bool-cases (ltb r.len (length r.slots))) [
          | inl lt ↦
              let k = ltb→lt r.len (length r.slots) lt in
              phys_partial r (r.len - 1) v k (omega arith) ∙ omega (arith, v.partial)
          | inr ge ↦
              let full : r.len ≡ length r.slots = ground (arith, v.len_in) in
              phys_high r (r.len - 1) v full (omega arith) (omega arith) ∙ omega arith
        ])
  ]

  -- On a ring that holds a queue, `newest` is the last value of the queue, and none if there is
  -- none.
  newest-Holds : {r : Ring A} {q : List A} → Holds r q → newest r ≡ get_elem? q (length q - 1)
  unfolding newest
  newest-Holds {r} {q} h = elim (Bool-cases (r.len == 0)) [
    | inl e ↦
        let z = (==_iff r.len 0).0 e in
        rw e (sym (get_elem?_ge q (length q - 1) (omega (arith, h.len_is))))
    | inr e ↦
        let z : r.len ≢ 0 = ground arith in
        rw e (
          ap (slot r.slots) (
            mod_back r.head (length r.slots) h.valid.cap_small h.valid.head_in
            ∙ sym (phys_newest r h.valid z)
            ∙ ap (phys r) (omega (arith, h.len_is)))
          ∙ h.item (length q - 1) (omega (arith, h.len_is)))
  ]

  -- What the readers of a ring say of the queue that it holds.
  pub record Reads (r : Ring A) (q : List A) : Type ℓ where
    pub item : (i : ℕ) → get r i ≡ get_elem? q i
    pub first : oldest r ≡ get_elem? q 0
    pub last : newest r ≡ get_elem? q (length q - 1)
    pub all : iter_chrono r ≡ q
    pub size : r.len ≡ length q
    pub empty : is_empty r ≡ (length q == 0)
    pub full : is_full r ≡ (length q == capacity r)

  -- On a ring that holds a queue, every reader answers for the queue: `get` at any index, past the
  -- end included, `oldest`, `newest`, `iter_chrono`, the length, and the tests whether it is empty
  -- or full.
  pub Holds-Reads : {r : Ring A} {q : List A} → Holds r q → Reads r q
  Holds-Reads {r} {q} h = record {
    item = λ i. get-Holds i h;
    first = unfold oldest in get-Holds 0 h;
    last = newest-Holds h;
    all = iter_chrono-Holds h;
    size = h.len_is;
    empty = unfold is_empty in ap (λ n. n == 0) h.len_is;
    full = unfold is_full in ap (λ n. n == length r.slots) h.len_is;
  }

  abbrev pub push_all : Ring A → List A → Ring A
  push_all r [] = r
  push_all r (x ∷ xs) = push_all (push r x).1 xs

  push_queue-append :
      (n : ℕ) (q xs : List A) (x : A)
      → 0 < n
      → length q ≤ n
      → drop (length (push_queue n q x) + length xs - n) (push_queue n q x ++ xs)
        ≡ drop (length q + length (x ∷ xs) - n) (q ++ x ∷ xs)
  push_queue-append n q xs x pos le = elim (Bool-cases (length q == n)) [
    | inl e ↦
        let full = (==_iff (length q) n).0 e in
        let k = length-append (drop 1 q) (x ∷ []) in
        let d = length-drop 1 q in
        let lhs : length (drop 1 q ++ x ∷ []) + length xs - n ≡ length xs = omega arith in
        let rhs : length q + length (x ∷ xs) - n ≡ suc (length xs) = omega arith in
        rw (e, lhs, rhs, append_assoc (drop 1 q) (x ∷ []) xs)
          (ap (drop (length xs)) (drop_one-append q (x ∷ xs) (omega arith))
            ∙ drop-drop_one (length xs) (q ++ x ∷ xs))
    | inr e ↦
        let k = length-append q (x ∷ []) in
        let lhs : length (q ++ x ∷ []) + length xs - n ≡ length q + length (x ∷ xs) - n =
          omega arith in
        rw (e, lhs, append_assoc q (x ∷ []) xs)
  ]

  -- After any pushes the ring holds the last items, as many as there is room for.
  pub push_all-Holds :
      (xs : List A) {r : Ring A} {q : List A}
      → Holds r q
      → Holds (push_all r xs) (drop (length q + length xs - length r.slots) (q ++ xs))
  push_all-Holds [] {r} {q} h =
      let none_over : length q + 0 - length r.slots ≡ 0 = omega (arith, h.len_is, h.valid.len_in) in
      rw (none_over, append-nil) h
  push_all-Holds (x ∷ xs) {r} {q} h =
      let step = (push-Holds x h).0 in
      let rest = push_all-Holds xs step in
      subst (Holds (push_all (push r x).1 xs))
        (ap
            (λ n.
              drop (length (push_queue (length r.slots) q x) + length xs - n)
                (push_queue (length r.slots) q x ++ xs))
            (length-slots-push r x)
          ∙ push_queue-append (length r.slots) q xs x h.valid.cap_pos
              (omega (arith, h.len_is, h.valid.len_in)))
        rest

  -- After any pushes into a new ring of fewer than 2^63 slots, `iter_chrono` lists exactly the last
  -- values, as many as there is room for, oldest first.
  pub iter_chrono-push_all :
      (c : ℕ) (xs : List A)
      → c < 2 ^ 63
      → iter_chrono (push_all (new c) xs) ≡ drop (length xs - max c 1) xs
  iter_chrono-push_all c xs h =
      let (empty, room) = new-Holds c h in
      iter_chrono-Holds (push_all-Holds xs empty) ∙ ap (λ n. drop n xs) (omega arith)
