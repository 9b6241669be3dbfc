-- ===== src/Text/Lines.antt =====
-- About a text cut into lines, and a line without its comment and the white space around it.
use mathlib.Core.List.{reverse, reverse-append, reverse-reverse}
use vitals.Prelude.{
  ℕ, ◌≡◌, ◌≢◌, refl, sym, ap, ◌∙◌, subst, List, [], ◌∷◌, ◌++◌, All, All-reverse, append_assoc,
  append-nil, ne→==_false,
}
use vitals.Text.Words.{IsSolid, spaced}
use vitals.Text.{Text, is_whitespace, lines, before, trim, trim_start_matches}

-- A character inside a line.
abbrev pub IsInline : ℕ → Type 0
IsInline c = (c ≢ 10) × (c ≢ 13)

-- Lines, each with the line feed behind it.
abbrev pub with_feeds : List Text → Text
with_feeds [] = []
with_feeds (l ∷ ls) = l ++ 10 ∷ with_feeds ls

lines-line : (l rest : Text) → All IsInline l → lines (l ++ 10 ∷ rest) ≡ l ∷ lines rest
unfolding lines
lines-line [] rest all = refl
lines-line (c ∷ l) rest all =
    rw (ne→==_false c 10 all.0.0, ne→==_false c 13 all.0.1, lines-line l rest all.1) refl

pub lines-with_feeds : (ls : List Text) → All (All IsInline) ls → lines (with_feeds ls) ≡ ls
lines-with_feeds [] all = unfold lines in refl
lines-with_feeds (l ∷ ls) all =
    lines-line l (with_feeds ls) all.0 ∙ ap (◌∷◌ l) (lines-with_feeds ls all.1)

pub before-Lacks : (c : ℕ) (s : Text) → All (λ d. d ≢ c) s → before c s ≡ s
unfolding before
before-Lacks c [] all = refl
before-Lacks c (d ∷ s) all = rw (ne→==_false d c all.0, before-Lacks c s all.1) refl

-- The first character is no white space.
abbrev pub StartsSolid : Text → Type 0
StartsSolid [] = ⊥
StartsSolid (c ∷ s) = IsSolid c

pub trim_start-StartsSolid : (s : Text) → StartsSolid s → trim_start_matches is_whitespace s ≡ s
unfolding trim_start_matches
trim_start-StartsSolid [] h = absurd h
trim_start-StartsSolid (c ∷ s) h = rw h refl

pub trim-StartsSolid : (s : Text) → StartsSolid s → StartsSolid (reverse s) → trim s ≡ s
unfolding trim
trim-StartsSolid s h k =
    rw (trim_start-StartsSolid s h, trim_start-StartsSolid (reverse s) k) (reverse-reverse s)

pub StartsSolid-append : (s t : Text) → StartsSolid s → StartsSolid (s ++ t)
StartsSolid-append [] t h = absurd h
StartsSolid-append (c ∷ s) t h = h

pub StartsSolid-All : (s : Text) → s ≢ [] → All IsSolid s → StartsSolid s
StartsSolid-All [] ne all = absurd (ne refl)
StartsSolid-All (c ∷ s) ne all = all.0

pub reverse-ne-nil : (s : Text) → s ≢ [] → reverse s ≢ []
reverse-ne-nil s ne e = ne (sym (reverse-reverse s) ∙ ap reverse e)

-- A word of a line: not empty, and no white space.
abbrev pub IsPlainWord : Text → Type 0
IsPlainWord w = (w ≢ []) × All IsSolid w

-- Words with a space between them end in no white space.
pub reverse-StartsSolid :
    (w : Text) (ws : List Text)
    → IsPlainWord w
    → All IsPlainWord ws
    → StartsSolid (reverse (w ++ spaced ws []))
reverse-StartsSolid w [] p all =
    subst (λ t. StartsSolid (reverse t)) (sym (append-nil w))
      (StartsSolid-All (reverse w) (reverse-ne-nil w p.0) (All-reverse IsSolid w p.1))
reverse-StartsSolid w (v ∷ vs) p all =
    subst (λ t. StartsSolid (reverse t)) (append_assoc w (b' ' ∷ []) (v ++ spaced vs []))
      (subst StartsSolid (sym (reverse-append (w ++ b' ' ∷ []) (v ++ spaced vs [])))
        (StartsSolid-append (reverse (v ++ spaced vs [])) _ (reverse-StartsSolid v vs all.0 all.1)))
