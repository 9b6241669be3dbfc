-- ===== src/Procfs/Stat/Lines.antt =====
-- The lines of `/proc/stat` as the kernel prints them, read by `stat_line`.
use vitals.Prelude.{
  ℕ, suc, ◌^◌, ◌<◌, ◌≡◌, ◌≢◌, refl, sym, ap, ◌∙◌, false, none, List, [], ◌∷◌, ◌++◌, map, All,
  All-map, All-append, append_assoc, append-nil, arith, map_from,
}
use vitals.Procfs.Counters.{
  displays-IsWord, numbers-display, digit-IsSolid, space-IsInline, displays-IsInline,
  digit-IsInline,
}
use vitals.Procfs.Stat.{number_or_zero, parse_cpu_line, cpu_line, stat_line, stat_lines}
use vitals.Procfs.{CpuTimes, StatFile}
use vitals.Text.Columns.{columns, split-columns, All-columns, trim-replicate}
use vitals.Text.Display.{IsDigit, display-All, display-ne-nil, parse_u64-display}
use vitals.Text.Lines.{IsInline}
use vitals.Text.Number.{display}
use vitals.Text.{Text, codes, trim, trim_start_matches, is_digit, is_ascii_whitespace, strip_prefix}

-- The columns of a line of times.
abbrev pub times : CpuTimes → List ℕ
times c =
    c.user ∷ c.nice ∷ c.system ∷ c.idle ∷ c.iowait ∷ c.irq ∷ c.softirq ∷ c.steal ∷ c.guest
    ∷ c.guest_nice ∷ []

abbrev pub IsTimes : CpuTimes → Type 0
IsTimes c = All (λ n. n < 2 ^ 64) (times c)

-- Columns with `gap` for the spaces between them.
abbrev times_text : (ℕ → ℕ) → CpuTimes → Text
times_text gap c = columns gap 0 (map display (times c))

abbrev pub total_line : (ℕ → ℕ) → CpuTimes → Text
total_line gap c = codes "cpu" ++ times_text gap c

abbrev pub core_line : (ℕ → ℕ) → ℕ → CpuTimes → Text
core_line gap i c = codes "cpu" ++ (display i ++ times_text gap c)

-- A line that is none of those which the program reads.
abbrev pub IsOther : Text → Type 0
IsOther l =
    (strip_prefix (codes "cpu") l ≡ none)
    × (strip_prefix (codes "ctxt ") l ≡ none)
    × (strip_prefix (codes "procs_running ") l ≡ none)
    × (strip_prefix (codes "procs_blocked ") l ≡ none)
    × All IsInline l

-- The lines of the file: the other lines stand where the kernel puts them, behind the processors
-- (`intr`), behind `ctxt` (`btime`, `processes`), and at the end (`softirq`).
abbrev pub stat_file : (ℕ → ℕ) → StatFile → List Text → List Text → List Text → List Text
stat_file gap s intr processes softirq =
    total_line gap s.total
    ∷ (map_from (core_line gap) 0 s.per_cpu
        ++ (intr
            ++ ((codes "ctxt " ++ display s.ctxt)
                ∷ (processes
                    ++ ((codes "procs_running " ++ display s.procs_running)
                        ∷ (codes "procs_blocked " ++ display s.procs_blocked)
                        ∷ softirq)))))

parse_cpu_line-times_text :
    (gap : ℕ → ℕ) (c : CpuTimes) → IsTimes c → parse_cpu_line (times_text gap c) ≡ c
parse_cpu_line-times_text gap c p =
    let numbers =
      ap (map number_or_zero)
        (split-columns gap 0 (map display (times c)) (displays-IsWord (times c)))
      ∙ numbers-display (times c) p in
    unfold parse_cpu_line in rw numbers refl

pub stat_line-total :
    (gap : ℕ → ℕ) (c : CpuTimes) (out : StatFile)
    → IsTimes c
    → stat_line (total_line gap c) out ≡ record out { total = c }
stat_line-total gap c out p =
    let times = parse_cpu_line-times_text gap c p in
    unfold stat_line in (ap (λ t. record out { total = t }) times)

trim_start-digits :
    (s t : Text) → All IsDigit s → trim_start_matches is_digit (s ++ b' ' ∷ t) ≡ b' ' ∷ t
unfolding trim_start_matches
trim_start-digits [] t all = refl
trim_start-digits (c ∷ s) t all = rw all.0 (trim_start-digits s t all.1)

cpu_line_digit :
    (d : ℕ) (s : Text) (out : StatFile)
    → IsDigit d
    → cpu_line (d ∷ s) out ≡ record out {
      per_cpu = out.per_cpu ++ parse_cpu_line (trim_start_matches is_digit (d ∷ s)) ∷ [];
    }
unfolding cpu_line
cpu_line_digit d s out h =
    let ink : is_ascii_whitespace d ≡ false = ground arith in rw (ink, h) refl

-- A line of one processor, on the text of its number.
cpu_line-core :
    (gap : ℕ → ℕ) (number : Text) (c : CpuTimes) (out : StatFile)
    → number ≢ []
    → All IsDigit number
    → IsTimes c
    → cpu_line (number ++ times_text gap c) out ≡ record out { per_cpu = out.per_cpu ++ c ∷ [] }
cpu_line-core gap [] c out ne all p = absurd (ne refl)
cpu_line-core gap (d ∷ number) c out ne all p =
    let parsed =
      ap parse_cpu_line (trim_start-digits (d ∷ number) _ all)
      ∙ parse_cpu_line-times_text gap c p in
    cpu_line_digit d (number ++ times_text gap c) out all.0
    ∙ ap (λ t. record out { per_cpu = out.per_cpu ++ t ∷ [] }) parsed

stat_line-core :
    (gap : ℕ → ℕ) (i : ℕ) (c : CpuTimes) (out : StatFile)
    → IsTimes c
    → stat_line (core_line gap i c) out ≡ record out { per_cpu = out.per_cpu ++ c ∷ [] }
stat_line-core gap i c out p =
    let line = cpu_line-core gap (display i) c out (display-ne-nil i) (display-All i) p in
    unfold stat_line in line

number-display : (n : ℕ) → n < 2 ^ 64 → number_or_zero (trim (display n)) ≡ n
number-display n h =
    rw
      (
        trim-replicate 0 (display n) (All-map (display n) digit-IsSolid (display-All n)),
        parse_u64-display n h,
      )
      refl

pub stat_line-ctxt :
    (n : ℕ) (out : StatFile)
    → n < 2 ^ 64
    → stat_line (codes "ctxt " ++ display n) out ≡ record out { ctxt = n }
stat_line-ctxt n out h =
    let e = number-display n h in unfold stat_line in (ap (λ k. record out { ctxt = k }) e)

pub stat_line-running :
    (n : ℕ) (out : StatFile)
    → n < 2 ^ 64
    → stat_line (codes "procs_running " ++ display n) out ≡ record out { procs_running = n }
stat_line-running n out h =
    let e = number-display n h in unfold stat_line in (ap (λ k. record out { procs_running = k }) e)

pub stat_line-blocked :
    (n : ℕ) (out : StatFile)
    → n < 2 ^ 64
    → stat_line (codes "procs_blocked " ++ display n) out ≡ record out { procs_blocked = n }
stat_line-blocked n out h =
    let e = number-display n h in unfold stat_line in (ap (λ k. record out { procs_blocked = k }) e)

stat_line-other : (l : Text) (out : StatFile) → IsOther l → stat_line l out ≡ out
unfolding stat_line
stat_line-other l out (cpu, ctxt, running, blocked, all) = rw (cpu, ctxt, running, blocked) refl

pub stat_lines-cons :
    (l : Text) (ls : List Text) (out : StatFile) {next : StatFile}
    → stat_line l out ≡ next
    → stat_lines (l ∷ ls) out ≡ stat_lines ls next
unfolding stat_lines
stat_lines-cons l ls out e = ap (stat_lines ls) e

pub stat_lines-others :
    (others ls : List Text) (out : StatFile)
    → All IsOther others
    → stat_lines (others ++ ls) out ≡ stat_lines ls out
stat_lines-others [] ls out all = refl
stat_lines-others (o ∷ others) ls out all =
    stat_lines-cons o (others ++ ls) out (stat_line-other o out all.0)
    ∙ stat_lines-others others ls out all.1

pub stat_lines-cores :
    (gap : ℕ → ℕ) (i : ℕ) (cs : List CpuTimes) (ls : List Text) (out : StatFile)
    → All IsTimes cs
    → stat_lines (map_from (core_line gap) i cs ++ ls) out
      ≡ stat_lines ls (record out { per_cpu = out.per_cpu ++ cs })
stat_lines-cores gap i [] ls out all =
    ap (λ p. stat_lines ls (record out { per_cpu = p })) (sym (append-nil out.per_cpu))
stat_lines-cores gap i (c ∷ cs) ls out all =
    stat_lines-cons (core_line gap i c) (map_from (core_line gap) (suc i) cs ++ ls) out
      (stat_line-core gap i c out all.0)
    ∙ stat_lines-cores gap (suc i) cs ls (record out { per_cpu = out.per_cpu ++ c ∷ [] }) all.1
    ∙ ap (λ p. stat_lines ls (record out { per_cpu = p })) (append_assoc out.per_cpu (c ∷ []) cs)

pub stat_lines-end :
    (others : List Text) (out : StatFile) → All IsOther others → stat_lines others out ≡ out
stat_lines-end [] out all = unfold stat_lines in refl
stat_lines-end (o ∷ others) out all =
    stat_lines-cons o others out (stat_line-other o out all.0) ∙ stat_lines-end others out all.1

pub others-IsInline : (others : List Text) → All IsOther others → All (All IsInline) others
others-IsInline others all = All-map others (λ l k. k.4) all

pub literal-IsInline : (name : Text) (n : ℕ) → All IsInline name → All IsInline (name ++ display n)
literal-IsInline name n all =
    All-append IsInline name (display n) all (All-map (display n) digit-IsInline (display-All n))

times-IsInline : (gap : ℕ → ℕ) (c : CpuTimes) → All IsInline (times_text gap c)
times-IsInline gap c =
    All-columns IsInline gap 0 (map display (times c)) space-IsInline (displays-IsInline (times c))

pub total-IsInline : (gap : ℕ → ℕ) (c : CpuTimes) → All IsInline (total_line gap c)
total-IsInline gap c =
    All-append IsInline (codes "cpu") (times_text gap c) (ground arith) (times-IsInline gap c)

pub cores-IsInline :
    (gap : ℕ → ℕ) (i : ℕ) (cs : List CpuTimes) → All (All IsInline) (map_from (core_line gap) i cs)
cores-IsInline gap i [] = tt
cores-IsInline gap i (c ∷ cs) = (
  All-append IsInline (codes "cpu") (display i ++ times_text gap c) (ground arith) (
      All-append IsInline (display i) (times_text gap c)
        (All-map (display i) digit-IsInline (display-All i)) (times-IsInline gap c)),
  cores-IsInline gap (suc i) cs,
)
