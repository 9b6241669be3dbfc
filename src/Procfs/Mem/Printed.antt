-- ===== src/Procfs/Mem/Printed.antt =====
-- `/proc/meminfo` as the kernel prints it, read by `parse_meminfo`.
use vitals.Prelude.{
  ℕ, zero, suc, ◌+◌, ◌==◌, false, add_word, ◌*◌, ◌^◌, ◌<◌, ◌≡◌, ◌≢◌, refl, ap, ◌∙◌, Option, none,
  some, List, [], ◌∷◌, ◌++◌, map, All, All-map, All-append, arith, saturating_mul, ltb, true,
  unwrap_or,
}
use vitals.Procfs.Counters.{solid-IsInline, space-IsInline, digit-IsInline}
use vitals.Procfs.Mem.{mem_lines, approximate, no_mem, parse_meminfo}
use vitals.Procfs.{MemInfo}
use vitals.Text.Columns.{columns, All-columns}
use vitals.Text.Display.{display-All}
use vitals.Text.Lines.{IsInline, with_feeds, lines-with_feeds}
use vitals.Text.Number.{display}
use vitals.Text.Words.{IsSolid}
use vitals.Text.{Text, codes, is_whitespace}
use vitals.Procfs.Mem.Lines.{
  mem_line, IsMemLine, set_lines, mem_lines-set_lines, IsOther, set_lines-others, set_lines-end,
}

-- The numbers of the file, in kibibytes; an old kernel does not print `MemAvailable`.
pub record Kibibytes : Type 0 where
  pub total : ℕ
  pub free : ℕ
  pub available : Option ℕ
  pub buffers : ℕ
  pub cached : ℕ
  pub swap_total : ℕ
  pub swap_free : ℕ

abbrev available_line : Option ℕ → List (Text × ℕ)
available_line none = []
available_line (some kib) = (codes "MemAvailable", kib) ∷ []

-- The lines in the kernel's order, with the other lines in their places.
abbrev pub mem_file : Kibibytes → List (Text × ℕ) → List (Text × ℕ) → List (Text × ℕ)
mem_file k active rest =
    (codes "MemTotal", k.total)
    ∷ (codes "MemFree", k.free)
    ∷ (available_line k.available
        ++ (codes "Buffers", k.buffers)
          ∷ (codes "Cached", k.cached)
          ∷ (active ++ (codes "SwapTotal", k.swap_total) ∷ (codes "SwapFree", k.swap_free) ∷ rest))

-- The numbers in bytes, as the file has them.
abbrev pub in_bytes : Kibibytes → MemInfo
in_bytes k = record {
  total = k.total * 1024;
  free = k.free * 1024;
  available = unwrap_or k.available 0 * 1024;
  buffers = k.buffers * 1024;
  cached = k.cached * 1024;
  swap_total = k.swap_total * 1024;
  swap_free = k.swap_free * 1024;
}

-- No number is so large that its bytes do not fit.
pub record IsSmall (k : Kibibytes) : Type 0 where
  pub total : k.total < 2 ^ 54
  pub free : k.free < 2 ^ 54
  pub available : unwrap_or k.available 0 < 2 ^ 54
  pub buffers : k.buffers < 2 ^ 54
  pub cached : k.cached < 2 ^ 54
  pub swap_total : k.swap_total < 2 ^ 54
  pub swap_free : k.swap_free < 2 ^ 54
  pub usable : k.free + k.buffers + k.cached < 2 ^ 54

bytes_small : (kib : ℕ) → kib < 2 ^ 54 → saturating_mul kib 1024 ≡ kib * 1024
bytes_small kib h = omega arith

available_step :
    (total free : ℕ) (available : Option ℕ) (more : List (Text × ℕ))
    → set_lines (available_line available ++ more) (record no_mem { total = total; free = free })
      ≡ set_lines more (record no_mem {
        total = total;
        free = free;
        available = saturating_mul (unwrap_or available 0) 1024;
      })
available_step total free none more = refl
available_step total free (some kib) more = refl

set_lines-mem_file :
    (k : Kibibytes) (active rest : List (Text × ℕ))
    → IsSmall k
    → All IsOther active
    → All IsOther rest
    → set_lines (mem_file k active rest) no_mem ≡ in_bytes k
set_lines-mem_file k active rest s a r =
    available_step (saturating_mul k.total 1024) (saturating_mul k.free 1024) k.available _
    ∙ set_lines-others active _ _ a
    ∙ set_lines-end rest _ r
    ∙ rw
        (
          bytes_small k.total s.total,
          bytes_small k.free s.free,
          bytes_small (unwrap_or k.available 0) s.available,
          bytes_small k.buffers s.buffers,
          bytes_small k.cached s.cached,
          bytes_small k.swap_total s.swap_total,
          bytes_small k.swap_free s.swap_free,
        )
        refl

mem_line-IsInline : (gap : ℕ → ℕ) (l : Text × ℕ) → IsMemLine l → All IsInline (mem_line gap l)
mem_line-IsInline gap (key, kib) p =
    All-append IsInline key (b':' ∷ columns gap 0 (display kib ∷ codes "kB" ∷ []))
      (All-map {P = λ c. IsSolid c × (c ≢ b':')} key (λ c k. solid-IsInline c k.0) p.0)
      (
        ((λ e. omega arith), (λ e. omega arith)),
        All-columns IsInline gap 0 (display kib ∷ codes "kB" ∷ []) space-IsInline
            (All-map (display kib) digit-IsInline (display-All kib), (ground arith, tt)),
      )

mem_lines-IsInline :
    (gap : ℕ → ℕ) (ls : List (Text × ℕ))
    → All IsMemLine ls
    → All (All IsInline) (map (mem_line gap) ls)
mem_lines-IsInline gap [] all = tt
mem_lines-IsInline gap (l ∷ ls) all =
    (mem_line-IsInline gap l all.0, mem_lines-IsInline gap ls all.1)

available-IsMemLine :
    (available : Option ℕ)
    → unwrap_or available 0 < 2 ^ 54
    → All IsMemLine (available_line available)
available-IsMemLine none h = tt
available-IsMemLine (some kib) h = ((unfold is_whitespace in ground arith, omega arith), tt)

mem_file-IsMemLine :
    (k : Kibibytes) (active rest : List (Text × ℕ))
    → IsSmall k
    → All IsOther active
    → All IsOther rest
    → All IsMemLine (mem_file k active rest)
unfolding is_whitespace
mem_file-IsMemLine k active rest s a r =
    let by = λ (l : Text × ℕ) (o : IsOther l). o.0 in
    (
      (ground arith, omega (arith, s.total)),
      (
        (ground arith, omega (arith, s.free)),
        All-append IsMemLine (available_line k.available) _
            (available-IsMemLine k.available s.available)
            (
              (ground arith, omega (arith, s.buffers)),
              (
                (ground arith, omega (arith, s.cached)),
                All-append IsMemLine active _ (All-map active by a) (
                  (ground arith, omega (arith, s.swap_total)),
                  ((ground arith, omega (arith, s.swap_free)), All-map rest by r),
                ),
              ),
            ),
      ),
    )

-- What is available, in bytes: the printed number, if it is not 0; else, on a machine that has memory,
-- what is free or in buffers or cached.
abbrev pub available_of : Kibibytes → ℕ
available_of k = elim (unwrap_or k.available 0) [
  | suc n ↦ suc n * 1024
  | zero ↦ elim k.total [ zero ↦ 0 | suc t ↦ (k.free + k.buffers + k.cached) * 1024 ]
]

approximate-bytes :
    (k : Kibibytes)
    → IsSmall k
    → (n t : ℕ) → unwrap_or k.available 0 ≡ n
    → k.total ≡ t
    → approximate (in_bytes k) ≡ record (in_bytes k) {
      available = elim n [
        | suc n' ↦ suc n' * 1024
        | zero ↦ elim t [ zero ↦ 0 | suc t' ↦ (k.free + k.buffers + k.cached) * 1024 ]
      ];
    }
unfolding approximate
approximate-bytes k s (suc n) t a b =
    let big : (unwrap_or k.available 0 * 1024 == 0) ≡ false = ground arith in rw (big, a) refl
approximate-bytes k s zero zero a b = rw (a, b) refl
approximate-bytes k s zero (suc t) a b =
    let sum : add_word (add_word (k.free * 1024) (k.buffers * 1024)) (k.cached * 1024)
        ≡ (k.free + k.buffers + k.cached) * 1024 =
      omega (arith, s.usable) in
    let some_total : ltb 0 (k.total * 1024) ≡ true = ground arith in rw (a, some_total, sum) refl

-- `/proc/meminfo` as the kernel prints it, with numbers below 2^54, what is free, in buffers and
-- cached together too, any spaces between the columns and lines of other names in their places,
-- parses to the numbers that it was printed from, in bytes. Only where `MemAvailable` is 0 or not
-- printed, on a machine that has memory, is it the sum of what is free, in buffers and cached.
pub parse_meminfo-mem_file :
    (gap : ℕ → ℕ) (k : Kibibytes) (active rest : List (Text × ℕ))
    → IsSmall k
    → All IsOther active
    → All IsOther rest
    → parse_meminfo (with_feeds (map (mem_line gap) (mem_file k active rest)))
      ≡ record (in_bytes k) { available = available_of k }
parse_meminfo-mem_file gap k active rest s a r =
    let ls = mem_file k active rest in
    let each = mem_file-IsMemLine k active rest s a r in
    let cut = lines-with_feeds (map (mem_line gap) ls) (mem_lines-IsInline gap ls each) in
    unfold parse_meminfo in
    (ap (λ t. approximate (mem_lines t no_mem)) cut
      ∙ ap approximate
          (mem_lines-set_lines gap ls no_mem each ∙ set_lines-mem_file k active rest s a r)
      ∙ approximate-bytes k s (unwrap_or k.available 0) k.total refl refl)
