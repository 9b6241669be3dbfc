-- ===== src/Procfs/Mem/Lines.antt =====
-- The lines of `/proc/meminfo` as the kernel prints them, read by `mem_lines`.
use vitals.Prelude.{
  ℕ, suc, ◌^◌, ◌<◌, ◌≡◌, ◌≢◌, refl, sym, ap, ◌∙◌, false, List, [], ◌∷◌, ◌++◌, map, All, All-map,
  append_assoc, subst, arith, saturating_mul, replicate,
}
use mathlib.Core.List.{reverse, reverse-append}
use vitals.Procfs.Counters.{display-IsWord, digit-IsSolid}
use vitals.Procfs.Mem.{set_mem, kibibytes, mem_lines}
use vitals.Procfs.Stat.{number_or_zero}
use vitals.Procfs.{MemInfo}
use vitals.Text.Columns.{
  columns, split-row, trim-replicate, trim-replicate_solid, split_once-append,
}
use vitals.Text.Display.{display-All, display-ne-nil, parse_u64-display}
use vitals.Text.Lines.{StartsSolid, StartsSolid-append, StartsSolid-All}
use vitals.Text.Number.{display}
use vitals.Text.Words.{IsSolid}
use vitals.Text.{Text, codes, str_eq, trim, is_whitespace, split_ascii_whitespace}

-- A line: the name, a colon, and the number of kibibytes with its unit, in columns.
abbrev pub mem_line : (ℕ → ℕ) → Text × ℕ → Text
mem_line gap (key, kib) = key ++ b':' ∷ columns gap 0 (display kib ∷ codes "kB" ∷ [])

-- A name of a line has no white space and no colon, and the number is of 64 bits.
abbrev pub IsMemLine : Text × ℕ → Type 0
IsMemLine (key, kib) = All (λ c. IsSolid c × (c ≢ b':')) key × (kib < 2 ^ 64)

value_text-end :
    (gap : ℕ → ℕ) (kib : ℕ) → StartsSolid (reverse (display kib ++ columns gap 1 (codes "kB" ∷ [])))
value_text-end gap kib =
    let front = display kib ++ b' ' ∷ replicate (gap 1) b' ' in
    let whole : display kib ++ columns gap 1 (codes "kB" ∷ []) ≡ front ++ codes "kB" =
      sym (append_assoc (display kib) (b' ' ∷ replicate (gap 1) b' ') (codes "kB")) in
    subst (λ t. StartsSolid (reverse t)) (sym whole)
      (subst StartsSolid (sym (reverse-append front (codes "kB"))) (unfold is_whitespace in refl))

-- The columns behind the colon, from the number on.
abbrev value_text : (ℕ → ℕ) → ℕ → Text
value_text gap kib = display kib ++ columns gap 1 (codes "kB" ∷ [])

value_text-trim :
    (gap : ℕ → ℕ) (kib : ℕ)
    → trim (columns gap 0 (display kib ∷ codes "kB" ∷ [])) ≡ value_text gap kib
value_text-trim gap kib =
    trim-replicate_solid (suc (gap 0)) (value_text gap kib)
      (StartsSolid-append (display kib) (columns gap 1 (codes "kB" ∷ [])) (
        StartsSolid-All (display kib) (display-ne-nil kib)
          (All-map (display kib) digit-IsSolid (display-All kib))))
      (value_text-end gap kib)

abbrev first_number : List Text → ℕ
first_number [] = 0
first_number (n ∷ ns) = number_or_zero n

kibibytes-first_number :
    (v : Text) {ws : List Text} → split_ascii_whitespace v ≡ ws → kibibytes v ≡ first_number ws
unfolding kibibytes
kibibytes-first_number v e = ap first_number e

kibibytes-value_text : (gap : ℕ → ℕ) (kib : ℕ) → kib < 2 ^ 64 → kibibytes (value_text gap kib) ≡ kib
kibibytes-value_text gap kib h =
    let cut =
      split-row 0 gap (display kib) (codes "kB" ∷ [])
        (display-IsWord kib, ((refl, (refl, tt)), tt)) in
    kibibytes-first_number (value_text gap kib) cut ∙ rw (parse_u64-display kib h) refl

mem_lines-mem_line :
    (gap : ℕ → ℕ) (l : Text × ℕ) (more : List Text) (m : MemInfo)
    → IsMemLine l
    → mem_lines (mem_line gap l ∷ more) m ≡ mem_lines more (set_mem l.0 (saturating_mul l.1 1024) m)
mem_lines-mem_line gap (key, kib) more m p =
    let cut =
      split_once-append b':' key (columns gap 0 (display kib ∷ codes "kB" ∷ []))
        (All-map key (λ c k. k.1) p.0) in
    let name = trim-replicate 0 key (All-map key (λ c k. k.0) p.0) in
    let value = value_text-trim gap kib in
    let number = kibibytes-value_text gap kib p.1 in
    unfold mem_lines in rw (cut, name, value, number) refl

-- What the lines say, one after the other.
abbrev pub set_lines : List (Text × ℕ) → MemInfo → MemInfo
set_lines [] m = m
set_lines ((key, kib) ∷ more) m = set_lines more (set_mem key (saturating_mul kib 1024) m)

pub mem_lines-set_lines :
    (gap : ℕ → ℕ) (ls : List (Text × ℕ)) (m : MemInfo)
    → All IsMemLine ls
    → mem_lines (map (mem_line gap) ls) m ≡ set_lines ls m
mem_lines-set_lines gap [] m all = unfold mem_lines in refl
mem_lines-set_lines gap (l ∷ ls) m all =
    mem_lines-mem_line gap l (map (mem_line gap) ls) m all.0
    ∙ mem_lines-set_lines gap ls (set_mem l.0 (saturating_mul l.1 1024) m) all.1

-- The names that the program reads.
abbrev pub names : List Text
names =
    map codes (
      "MemTotal" ∷ "MemFree" ∷ "MemAvailable" ∷ "Buffers" ∷ "Cached" ∷ "SwapTotal" ∷ "SwapFree"
      ∷ [])

-- A line of another name.
abbrev pub IsOther : Text × ℕ → Type 0
IsOther l = IsMemLine l × All (λ name. str_eq l.0 name ≡ false) names

set_mem-other :
    (key : Text) (bytes : ℕ) (m : MemInfo)
    → All (λ name. str_eq key name ≡ false) names
    → set_mem key bytes m ≡ m
set_mem-other key bytes m
      (total, (free, (available, (buffers, (cached, (swap_total, (swap_free, end))))))) =
    ground arith

pub set_lines-others :
    (others more : List (Text × ℕ)) (m : MemInfo)
    → All IsOther others
    → set_lines (others ++ more) m ≡ set_lines more m
set_lines-others [] more m all = refl
set_lines-others ((key, kib) ∷ others) more m all =
    ap (set_lines (others ++ more)) (set_mem-other key (saturating_mul kib 1024) m all.0.1)
    ∙ set_lines-others others more m all.1

pub set_lines-end :
    (others : List (Text × ℕ)) (m : MemInfo) → All IsOther others → set_lines others m ≡ m
set_lines-end [] m all = refl
set_lines-end ((key, kib) ∷ others) m all =
    ap (set_lines others) (set_mem-other key (saturating_mul kib 1024) m all.0.1)
    ∙ set_lines-end others m all.1
