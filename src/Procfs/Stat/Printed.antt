-- ===== src/Procfs/Stat/Printed.antt =====
-- `/proc/stat` as the kernel prints it, read by `parse_proc_stat`.
use vitals.Prelude.{ℕ, ◌^◌, ◌<◌, ◌≡◌, ap, ◌∙◌, List, ◌++◌, All, All-append, arith, map_from}
use vitals.Procfs.Stat.{stat_lines, no_stat, parse_proc_stat}
use vitals.Procfs.{StatFile}
use vitals.Text.Lines.{IsInline, with_feeds, lines-with_feeds}
use vitals.Text.Number.{display}
use vitals.Text.{Text, codes}
use vitals.Procfs.Stat.Lines.{
  IsTimes, total_line, core_line, IsOther, stat_file, stat_line-total, stat_line-ctxt,
  stat_line-running, stat_line-blocked, stat_lines-cons, stat_lines-others, stat_lines-cores,
  stat_lines-end, others-IsInline, literal-IsInline, total-IsInline, cores-IsInline,
}

-- The numbers of the file are of 64 bits.
pub record IsStatFile (s : StatFile) : Type 0 where
  pub total : IsTimes s.total
  pub per_cpu : All IsTimes s.per_cpu
  pub ctxt : s.ctxt < 2 ^ 64
  pub running : s.procs_running < 2 ^ 64
  pub blocked : s.procs_blocked < 2 ^ 64

module _ (gap : ℕ → ℕ) (s : StatFile) (intr processes softirq : List Text) where
  stat_lines-stat_file :
      IsStatFile s
      → All IsOther intr
      → All IsOther processes
      → All IsOther softirq
      → stat_lines (stat_file gap s intr processes softirq) no_stat ≡ s
  stat_lines-stat_file p i q t =
      stat_lines-cons (total_line gap s.total) _ no_stat
        (stat_line-total gap s.total no_stat p.total)
      ∙ stat_lines-cores gap 0 s.per_cpu _ (record no_stat { total = s.total }) p.per_cpu
      ∙ stat_lines-others intr _ _ i
      ∙ stat_lines-cons (codes "ctxt " ++ display s.ctxt) _ _ (stat_line-ctxt s.ctxt _ p.ctxt)
      ∙ stat_lines-others processes _ _ q
      ∙ stat_lines-cons (codes "procs_running " ++ display s.procs_running) _ _
          (stat_line-running s.procs_running _ p.running)
      ∙ stat_lines-cons (codes "procs_blocked " ++ display s.procs_blocked) _ _
          (stat_line-blocked s.procs_blocked _ p.blocked)
      ∙ stat_lines-end softirq s t

  -- The lines hold no end of a line.
  stat_file-IsInline :
      All IsOther intr
      → All IsOther processes
      → All IsOther softirq
      → All (All IsInline) (stat_file gap s intr processes softirq)
  stat_file-IsInline i q t = (
    total-IsInline gap s.total,
    All-append (All IsInline) (map_from (core_line gap) 0 s.per_cpu) _
        (cores-IsInline gap 0 s.per_cpu)
        (All-append (All IsInline) intr _ (others-IsInline intr i) (
          literal-IsInline (codes "ctxt ") s.ctxt (ground arith),
          All-append (All IsInline) processes _ (others-IsInline processes q) (
            literal-IsInline (codes "procs_running ") s.procs_running (ground arith),
            (
              literal-IsInline (codes "procs_blocked ") s.procs_blocked (ground arith),
              others-IsInline softirq t,
            ),
          ),
        )),
  )

  -- `/proc/stat` as the kernel prints it, with numbers below 2^64, any number of processors, any
  -- spaces between the columns and any other lines in their places, parses to the times and
  -- counters that it was printed from.
  pub parse_proc_stat-stat_file :
      IsStatFile s
      → All IsOther intr
      → All IsOther processes
      → All IsOther softirq
      → parse_proc_stat (with_feeds (stat_file gap s intr processes softirq)) ≡ s
  unfolding parse_proc_stat
  parse_proc_stat-stat_file p i q t =
      ap (λ ls. stat_lines ls no_stat)
        (lines-with_feeds (stat_file gap s intr processes softirq) (stat_file-IsInline i q t))
      ∙ stat_lines-stat_file p i q t
