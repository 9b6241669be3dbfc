-- ===== src/Text/Columns.antt =====
-- About the tables of /proc: words in columns, with any number of spaces between them.
use vitals.Prelude.{
  ℕ, zero, suc, ◌≡◌, ◌≢◌, refl, ap, ◌∙◌, true, some, List, [], ◌∷◌, ◌++◌, All, All-append,
  All-reverse, replicate, ne→==_false, arith,
}
use mathlib.Core.List.{reverse, reverse-reverse}
use vitals.Text.Lines.{StartsSolid, trim_start-StartsSolid}
use vitals.Text.Words.{IsSolid, IsWord, EndsWord, split-space, split-word, trim_start-IsSolid}
use vitals.Text.{Text, is_whitespace, split_ascii_whitespace, split_once, trim, trim_start_matches}

-- At least one space before each word, and `gap i` more before that of column `i`.
abbrev pub columns : (ℕ → ℕ) → ℕ → List Text → Text
columns gap i [] = []
columns gap i (w ∷ ws) = b' ' ∷ (replicate (gap i) b' ' ++ (w ++ columns gap (suc i) ws))

split-replicate :
    (n : ℕ) (s : Text) → split_ascii_whitespace (replicate n b' ' ++ s) ≡ split_ascii_whitespace s
split-replicate zero s = refl
split-replicate (suc n) s = split-space b' ' (replicate n b' ' ++ s) refl ∙ split-replicate n s

columns-EndsWord : (gap : ℕ → ℕ) (i : ℕ) (ws : List Text) → EndsWord (columns gap i ws)
columns-EndsWord gap i [] = tt
columns-EndsWord gap i (w ∷ ws) = refl

split-column :
    (w rest : Text)
    → IsWord w
    → EndsWord rest
    → split_ascii_whitespace (w ++ rest) ≡ w ∷ split_ascii_whitespace rest
split-column [] rest h e = absurd h
split-column (c ∷ w) rest h e = split-word c w rest h.0 h.1 e

pub split-columns :
    (gap : ℕ → ℕ) (i : ℕ) (ws : List Text)
    → All IsWord ws
    → split_ascii_whitespace (columns gap i ws) ≡ ws
split-columns gap i [] all = unfold split_ascii_whitespace in refl
split-columns gap i (w ∷ ws) all =
    split-space b' ' (replicate (gap i) b' ' ++ (w ++ columns gap (suc i) ws)) refl
    ∙ split-replicate (gap i) (w ++ columns gap (suc i) ws)
    ∙ split-column w (columns gap (suc i) ws) all.0 (columns-EndsWord gap (suc i) ws)
    ∙ ap (◌∷◌ w) (split-columns gap (suc i) ws all.1)

-- The first word may stand with no space before it.
pub split-row :
    (n : ℕ) (gap : ℕ → ℕ) (w : Text) (ws : List Text)
    → All IsWord (w ∷ ws)
    → split_ascii_whitespace (replicate n b' ' ++ (w ++ columns gap 1 ws)) ≡ w ∷ ws
split-row n gap w ws all =
    split-replicate n (w ++ columns gap 1 ws)
    ∙ split-column w (columns gap 1 ws) all.0 (columns-EndsWord gap 1 ws)
    ∙ ap (◌∷◌ w) (split-columns gap 1 ws all.1)

pub split_once-append :
    (c : ℕ) (s t : Text) → All (λ d. d ≢ c) s → split_once c (s ++ c ∷ t) ≡ some (s, t)
unfolding split_once
split_once-append c [] t all = ground arith
split_once-append c (d ∷ s) t all = rw (ne→==_false d c all.0, split_once-append c s t all.1) refl

trim_start-replicate :
    (n : ℕ) (s : Text)
    → trim_start_matches is_whitespace (replicate n b' ' ++ s) ≡ trim_start_matches is_whitespace s
unfolding trim_start_matches
trim_start-replicate zero s = refl
trim_start-replicate (suc n) s =
    let space : is_whitespace b' ' ≡ true = unfold is_whitespace in refl in
    rw space (trim_start-replicate n s)

-- A text without white space behind some spaces.
pub trim-replicate : (n : ℕ) (s : Text) → All IsSolid s → trim (replicate n b' ' ++ s) ≡ s
unfolding trim
trim-replicate n s all =
    let left = trim_start-replicate n s ∙ trim_start-IsSolid s all in
    ap (λ t. reverse (trim_start_matches is_whitespace (reverse t))) left
    ∙ ap reverse (trim_start-IsSolid (reverse s) (All-reverse IsSolid s all))
    ∙ reverse-reverse s

-- A text behind some spaces that ends in no white space.
pub trim-replicate_solid :
    (n : ℕ) (s : Text) → StartsSolid s → StartsSolid (reverse s) → trim (replicate n b' ' ++ s) ≡ s
unfolding trim
trim-replicate_solid n s h k =
    let left = trim_start-replicate n s ∙ trim_start-StartsSolid s h in
    ap (λ t. reverse (trim_start_matches is_whitespace (reverse t))) left
    ∙ ap reverse (trim_start-StartsSolid (reverse s) k)
    ∙ reverse-reverse s

pub All-replicate : (P : ℕ → Type 0) (n c : ℕ) → P c → All P (replicate n c)
All-replicate P zero c h = tt
All-replicate P (suc n) c h = (h, All-replicate P n c h)

pub All-columns :
    (P : ℕ → Type 0) (gap : ℕ → ℕ) (i : ℕ) (ws : List Text)
    → P b' '
    → All (All P) ws
    → All P (columns gap i ws)
All-columns P gap i [] space all = tt
All-columns P gap i (w ∷ ws) space all = (
  space,
  All-append P (replicate (gap i) b' ') (w ++ columns gap (suc i) ws)
      (All-replicate P (gap i) b' ' space)
      (All-append P w (columns gap (suc i) ws) all.0 (All-columns P gap (suc i) ws space all.1)),
)
