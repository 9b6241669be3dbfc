-- ===== src/Ring/Tests.antt =====
-- Runs of the ring, from the unit tests of src/ring.rs, and the properties at concrete rings.
use vitals.Prelude.{
  ℕ, ◌≡◌, refl, none, some, List, [], ◌∷◌, drop, get_elem?, length, arith, max, ◌-◌, if◌then◌else◌,
  ◌==◌,
}
use vitals.Ring.Refine.{Holds, push_queue, push-Holds}
use vitals.Ring.View.{new-Holds, Reads, Holds-Reads, push_all, iter_chrono-push_all}
use vitals.Ring.{Ring, new, push, get, newest, oldest, clear, iter_chrono}

abbrev one_to_seven : List ℕ
one_to_seven = 1 ∷ 2 ∷ 3 ∷ 4 ∷ 5 ∷ 6 ∷ 7 ∷ []

abbrev two : List ℕ
two = 1 ∷ 2 ∷ []

abbrev ring : Ring ℕ
ring = push_all (new 2) two

wraps : iter_chrono (push_all (new 3) one_to_seven) ≡ 5 ∷ 6 ∷ 7 ∷ []
unfolding new push iter_chrono get vitals.Ring.phys
wraps = refl

evicts : (push ring 3).0 ≡ some 1
unfolding new push
evicts = refl

zero_capacity : newest (push_all (new 0) two) ≡ some 2
unfolding new push newest
zero_capacity = refl

empty_ring : Holds {A = ℕ} (new 2) []
empty_ring = (new-Holds 2 (omega arith)).0

one_item : Holds {A = ℕ} (push (new 2) 1).1 (1 ∷ [])
unfolding new
one_item = (push-Holds 1 empty_ring).0

ring-Holds : Holds ring two
unfolding new push
ring-Holds = (push-Holds 2 one_item).0

push-Holds_example :
    Holds (push ring 3).1 (push_queue (length ring.slots) two 3)
    × ((push ring 3).0 ≡ (if length two == length ring.slots then get_elem? two 0 else none))
push-Holds_example = push-Holds 3 ring-Holds

iter_chrono-push_all_example :
    iter_chrono (push_all (new 3) one_to_seven) ≡ drop (length one_to_seven - max 3 1) one_to_seven
iter_chrono-push_all_example = iter_chrono-push_all 3 one_to_seven (omega arith)

Holds-Reads_example : Reads ring two
Holds-Reads_example = Holds-Reads ring-Holds
