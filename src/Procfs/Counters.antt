-- ===== src/Procfs/Counters.antt =====
-- Counters as the files of /proc print them: words of digits, read by `number_or_zero`.
use vitals.Prelude.{ℕ, ◌^◌, ◌<◌, ◌≡◌, ◌≢◌, refl, ap, List, [], ◌∷◌, map, All, All-map, arith}
use vitals.Procfs.Stat.{number_or_zero}
use vitals.Text.Display.{IsDigit, display-All, display-ne-nil, parse_u64-display}
use vitals.Text.Lines.{IsInline}
use vitals.Text.Number.{display}
use vitals.Text.Words.{IsInk, IsSolid, IsWord}
use vitals.Text.{Text, is_whitespace}

digit-IsInk : (c : ℕ) → IsDigit c → IsInk c
digit-IsInk c h = ground arith

IsWord-All : (w : Text) → w ≢ [] → All IsInk w → IsWord w
IsWord-All [] ne all = absurd (ne refl)
IsWord-All (c ∷ w) ne all = all

pub display-IsWord : (n : ℕ) → IsWord (display n)
display-IsWord n =
    IsWord-All (display n) (display-ne-nil n) (All-map (display n) digit-IsInk (display-All n))

pub displays-IsWord : (ns : List ℕ) → All IsWord (map display ns)
displays-IsWord [] = tt
displays-IsWord (n ∷ ns) = (display-IsWord n, displays-IsWord ns)

pub numbers-display :
    (ns : List ℕ) → All (λ n. n < 2 ^ 64) ns → map number_or_zero (map display ns) ≡ ns
numbers-display [] all = refl
numbers-display (n ∷ ns) all =
    rw (parse_u64-display n all.0) (ap (◌∷◌ n) (numbers-display ns all.1))

pub solid-IsInline : (c : ℕ) → IsSolid c → IsInline c
unfolding is_whitespace
solid-IsInline c h = ((λ e. ground arith), (λ e. ground arith))

pub digit-IsInline : (c : ℕ) → IsDigit c → IsInline c
digit-IsInline c h = ((λ e. ground arith), (λ e. ground arith))

pub space-IsInline : IsInline b' '
space-IsInline = ((λ e. omega arith), (λ e. omega arith))

pub displays-IsInline : (ns : List ℕ) → All (All IsInline) (map display ns)
displays-IsInline [] = tt
displays-IsInline (n ∷ ns) =
    (All-map (display n) digit-IsInline (display-All n), displays-IsInline ns)

pub digit-IsSolid : (c : ℕ) → IsDigit c → IsSolid c
unfolding is_whitespace
digit-IsSolid c h = ground arith
