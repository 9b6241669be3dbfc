-- ===== src/Text/Words.antt =====
-- About a text cut at white space: words printed with space between them come back.
use vitals.Prelude.{ℕ, ◌≡◌, refl, sym, ap, ◌∙◌, true, false, List, [], ◌∷◌, ◌++◌, All, All-reverse}
use mathlib.Core.List.{reverse, reverse-append, reverse-reverse}
use vitals.Text.{
  Text, is_ascii_whitespace, is_whitespace, push_front, split_ascii_whitespace, trim,
  trim_start_matches,
}

abbrev pub IsSpace : ℕ → Type 0
IsSpace c = is_ascii_whitespace c ≡ true

abbrev pub IsInk : ℕ → Type 0
IsInk c = is_ascii_whitespace c ≡ false

-- At least one character, and no white space.
abbrev pub IsWord : Text → Type 0
IsWord [] = ⊥
IsWord (c ∷ s) = IsInk c × All IsInk s

-- A space before each word, and what ends the text.
abbrev pub spaced : List Text → Text → Text
spaced [] end = end
spaced (w ∷ ws) end = b' ' ∷ (w ++ spaced ws end)

pub split-space :
    (c : ℕ) (s : Text) → IsSpace c → split_ascii_whitespace (c ∷ s) ≡ split_ascii_whitespace s
unfolding split_ascii_whitespace
split-space c s h = rw h refl

split-IsSpace : (s : Text) → All IsSpace s → split_ascii_whitespace s ≡ []
split-IsSpace [] all = unfold split_ascii_whitespace in refl
split-IsSpace (c ∷ s) all = split-space c s all.0 ∙ split-IsSpace s all.1

-- A text that does not go on with the word before it.
abbrev pub EndsWord : Text → Type 0
EndsWord [] = Unit
EndsWord (c ∷ s) = IsSpace c

split-one :
    (c : ℕ) (rest : Text)
    → IsInk c
    → EndsWord rest
    → split_ascii_whitespace (c ∷ rest) ≡ (c ∷ []) ∷ split_ascii_whitespace rest
unfolding split_ascii_whitespace
split-one c [] h e = rw h refl
split-one c (d ∷ rest) h e = rw (h, e) refl

pub split-word :
    (c : ℕ) (s rest : Text)
    → IsInk c
    → All IsInk s
    → EndsWord rest
    → split_ascii_whitespace (c ∷ (s ++ rest)) ≡ (c ∷ s) ∷ split_ascii_whitespace rest
split-word c [] rest h all e = split-one c rest h e
split-word c (d ∷ s) rest h all e =
    let ih = split-word d s rest all.0 all.1 e in
    let first : split_ascii_whitespace (c ∷ d ∷ (s ++ rest))
        ≡ push_front c (split_ascii_whitespace (d ∷ (s ++ rest))) =
      unfold split_ascii_whitespace in rw (h, all.0) refl in
    first ∙ rw ih refl

spaced-EndsWord : (ws : List Text) (end : Text) → All IsSpace end → EndsWord (spaced ws end)
spaced-EndsWord [] [] all = tt
spaced-EndsWord [] (c ∷ end) all = all.0
spaced-EndsWord (w ∷ ws) end all = refl

-- Words that stand each behind a space, with nothing but white space at the end.
pub split-spaced :
    (ws : List Text) (end : Text)
    → All IsWord ws
    → All IsSpace end
    → split_ascii_whitespace (spaced ws end) ≡ ws
split-spaced [] end words e = split-IsSpace end e
split-spaced ([] ∷ ws) end words e = absurd words.0
split-spaced ((c ∷ s) ∷ ws) end words e =
    split-space b' ' (c ∷ (s ++ spaced ws end)) refl
    ∙ split-word c s (spaced ws end) words.0.0 words.0.1 (spaced-EndsWord ws end e)
    ∙ ap (◌∷◌ (c ∷ s)) (split-spaced ws end words.1 e)

-- The same, with no space before the first word.
pub split-words :
    (w : Text) (ws : List Text) (end : Text)
    → All IsWord (w ∷ ws)
    → All IsSpace end
    → split_ascii_whitespace (w ++ spaced ws end) ≡ w ∷ ws
split-words w ws end words e =
    sym (split-space b' ' (w ++ spaced ws end) refl) ∙ split-spaced (w ∷ ws) end words e

abbrev pub IsSolid : ℕ → Type 0
IsSolid c = is_whitespace c ≡ false

pub trim_start-IsSolid : (s : Text) → All IsSolid s → trim_start_matches is_whitespace s ≡ s
unfolding trim_start_matches
trim_start-IsSolid [] all = refl
trim_start-IsSolid (c ∷ s) all = rw all.0 refl

trim_start-concat :
    (s : Text)
    → All IsSolid s
    → trim_start_matches is_whitespace (reverse (trim_start_matches is_whitespace (s ++ b' ' ∷ [])))
      ≡ reverse s
unfolding trim_start_matches
trim_start-concat [] all = unfold is_whitespace in refl
trim_start-concat (c ∷ s) all =
    rw (all.0, reverse-append (c ∷ s) (b' ' ∷ []))
      (let space : is_whitespace b' ' ≡ true = unfold is_whitespace in refl in
        rw space (trim_start-IsSolid (reverse (c ∷ s)) (All-reverse IsSolid (c ∷ s) all)))

-- A text without white space, but for one space behind it, is trimmed to itself.
pub trim-concat : (s : Text) → All IsSolid s → trim (s ++ b' ' ∷ []) ≡ s
unfolding trim
trim-concat s all = ap reverse (trim_start-concat s all) ∙ reverse-reverse s
