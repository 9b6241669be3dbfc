-- ===== src/Units/Auxv.antt =====
-- The auxiliary vector as the kernel writes it, and `parse_auxv` against it.
use vitals.Prelude.{
  ℕ, zero, suc, ◌*◌, ◌/◌, ◌%◌, ◌<◌, ◌≡◌, ◌≢◌, refl, ◌∙◌, false, Option, none, some, List, [], ◌∷◌,
  ◌++◌, arith, if◌then◌else◌, ◌==◌, ltb, All, length, ne→==_false, word, Bool-cases, inl, inr,
}
use vitals.Units.{from_ne_bytes, parse_auxv_from, parse_auxv, at_null, at_pagesz, at_clktck}

-- The bytes of a number, the lowest first.
abbrev pub to_bytes : ℕ → ℕ → List ℕ
to_bytes zero n = []
to_bytes (suc k) n = n % 256 ∷ to_bytes k (n / 256)

abbrev below : ℕ → ℕ
below zero = 1
below (suc k) = 256 * below k

from_ne_bytes-to_bytes : (k n : ℕ) → n < below k → from_ne_bytes (to_bytes k n) ≡ n
from_ne_bytes-to_bytes zero n h = omega arith
from_ne_bytes-to_bytes (suc k) n h =
    let rest = from_ne_bytes-to_bytes k (n / 256) (omega arith) in omega arith

-- One entry: a key and a value.
abbrev pub entry : ℕ × ℕ → List ℕ
entry (k, v) = to_bytes 8 k ++ to_bytes 8 v

abbrev pub entries : List (ℕ × ℕ) → List ℕ
entries [] = []
entries (e ∷ es) = entry e ++ entries es

-- An entry that does not end the vector.
abbrev pub IsEntry : ℕ × ℕ → Type 0
IsEntry (k, v) = (k ≢ 0) × (k < word) × (v < word)

-- The last value under a key, or the one from before.
abbrev pub last_value : ℕ → List (ℕ × ℕ) → Option ℕ → Option ℕ
last_value key [] old = old
last_value key ((k, v) ∷ es) old = last_value key es (if k == key then some v else old)

word_bytes : (n : ℕ) → n < word → from_ne_bytes (to_bytes 8 n) ≡ n
word_bytes n h = from_ne_bytes-to_bytes 8 n h

long_enough : (k v : ℕ) (rest : List ℕ) → ltb (length (entry (k, v) ++ rest)) 16 ≡ false
long_enough k v rest = ground arith

-- One round on an entry.
round :
    (fuel k v : ℕ) (rest : List ℕ) (clk page : Option ℕ)
    → k < word
    → v < word
    → parse_auxv_from (suc fuel) (entry (k, v) ++ rest) (clk, page) ≡ (
        if k == at_null
        then (clk, page)
        else parse_auxv_from fuel rest (
            if k == at_clktck
            then (some v, page)
            else if k == at_pagesz
            then (clk, some v)
            else (clk, page)))
unfolding parse_auxv_from
round fuel k v rest clk page hk hv =
    rw (long_enough k v rest, word_bytes k hk, word_bytes v hv) refl

found :
    (fuel : ℕ) (es : List (ℕ × ℕ)) (v0 : ℕ) (junk : List ℕ) (clk page : Option ℕ)
    → All IsEntry es
    → v0 < word
    → length es < fuel
    → parse_auxv_from fuel (entries es ++ (entry (0, v0) ++ junk)) (clk, page)
      ≡ (last_value at_clktck es clk, last_value at_pagesz es page)
found zero es v0 junk clk page all small h = absurd (omega arith)
found (suc fuel) [] v0 junk clk page all small h = round fuel 0 v0 junk clk page (omega arith) small
found (suc fuel) ((k, v) ∷ es) v0 junk clk page ((nz, hk, hv), all) small h =
    let rest = entries es ++ (entry (0, v0) ++ junk) in
    let go = ne→==_false k 0 nz in
    round fuel k v rest clk page hk hv ∙ elim (Bool-cases (k == at_clktck)) [
      | inl c ↦
          let other : (k == at_pagesz) ≡ false = ground arith in
          rw (go, c, other) (found fuel es v0 junk (some v) page all small (omega arith))
      | inr n ↦ elim (Bool-cases (k == at_pagesz)) [
        | inl p ↦ rw (go, n, p) (found fuel es v0 junk clk (some v) all small (omega arith))
        | inr m ↦ rw (go, n, m) (found fuel es v0 junk clk page all small (omega arith))
      ]
    ]

-- From the bytes of any entries with keys other than 0, an entry with the key 0, and whatever
-- stands behind that, `parse_auxv` reads the last value under each of its two keys; keys and values
-- are below 2^64.
pub parse_auxv-entries :
    (es : List (ℕ × ℕ)) (v0 : ℕ) (junk : List ℕ)
    → All IsEntry es
    → v0 < word
    → parse_auxv (entries es ++ (entry (0, v0) ++ junk))
      ≡ (last_value at_clktck es none, last_value at_pagesz es none)
unfolding parse_auxv
parse_auxv-entries es v0 junk all small =
    found (length (entries es ++ (entry (0, v0) ++ junk))) es v0 junk none none all small
      (enough es)
  where
    enough : (es : List (ℕ × ℕ)) → length es < length (entries es ++ (entry (0, v0) ++ junk))
    enough [] = omega arith
    enough (e ∷ es) = let rest = enough es in omega arith
