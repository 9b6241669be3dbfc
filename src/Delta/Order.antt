-- ===== src/Delta/Order.antt =====
-- The list of processes of `diff`: its order, and what each row says.
use mathlib.Core.List.{Permᴰ}
use vitals.Delta.{ProcRate, diff, proc_rate, goes_behind, proc_cpu, io_rate}
use vitals.Float.{Float, of_nat, IsOrdered, as_secs_f64}
use vitals.Prelude.{
  ◌>>=◌, ℕ, ◌-◌, ◌≤◌, ◌≡◌, ◌↔◌, refl, true, false, Option, none, some, List, [], ◌∷◌, map, arith,
  inl, inr, Option-cases, lookup, option_map,
}
use vitals.Prelude.Sorted.{IsSorted, sort_by-perm, sort_by-IsSorted}
use vitals.Procfs.{rss_bytes, ProcKey, key_eq, PidIo}
use vitals.Sample.{Sample, ProcSample}
use vitals.Units.{SysConst}

module _ {ℓ} {W : Type ℓ} (f : Float W) where
  goes_behind_asymm :
      IsOrdered f → (a b : ProcRate W) → goes_behind f a b ≡ true → goes_behind f b a ≡ false
  unfolding goes_behind
  goes_behind_asymm ord a b =
      ground (arith, ord.lt_asymm a.cpu_pct b.cpu_pct, ord.lt_asymm b.cpu_pct a.cpu_pct)

  -- `b` may follow `a`: it has no more CPU, and no more memory if it has no less CPU.
  pub record Ranks (a b : ProcRate W) : Type 0 where
    cpu : f.lt a.cpu_pct b.cpu_pct ≡ false
    rss : f.lt b.cpu_pct a.cpu_pct ≡ false → b.rss_bytes ≤ a.rss_bytes

  abbrev Heads : ProcRate W → List (ProcRate W) → Type 0
  Heads a [] = Unit
  Heads a (b ∷ bs) = Ranks a b

  abbrev pub IsRanked : List (ProcRate W) → Type 0
  IsRanked [] = Unit
  IsRanked (a ∷ rows) = Heads a rows × IsRanked rows

  goes_behind-Ranks : (a b : ProcRate W) → goes_behind f a b ≡ false → Ranks a b
  unfolding goes_behind
  goes_behind-Ranks a b h = record { cpu = ground arith; rss = λ e. ground arith }

  IsSorted-IsRanked : (rows : List (ProcRate W)) → IsSorted (goes_behind f) rows → IsRanked rows
  IsSorted-IsRanked [] s = tt
  IsSorted-IsRanked (a ∷ []) s = (tt, tt)
  IsSorted-IsRanked (a ∷ b ∷ rows) (h, s) =
      (goes_behind-Ranks a b h, IsSorted-IsRanked (b ∷ rows) s)

  io_rate_unread :
      (field : PidIo → ℕ) (secs : W) (before : Option PidIo)
      → io_rate f field secs before none ≡ none
  unfolding io_rate
  io_rate_unread field secs none = refl
  io_rate_unread field secs (some io) = refl

  io_rate_new :
      (field : PidIo → ℕ) (secs : W) (io : Option PidIo)
      → io_rate f field secs none io ≡ option_map (λ (io : PidIo). of_nat f 0) io
  unfolding io_rate
  io_rate_new field secs none = refl
  io_rate_new field secs (some io) = refl

  module _ (sys : SysConst) (prev cur : Sample) where
    -- The row of a process, before the sort.
    abbrev pub row : ProcKey × ProcSample → ProcRate W
    row = proc_rate f sys (of_nat f sys.clk_tck) (as_secs_f64 f (cur.at - prev.at)) prev.procs

    pub diff-perm : Permᴰ (diff f sys prev cur).procs (map row cur.procs)
    unfolding diff
    diff-perm = sort_by-perm (goes_behind f) (map row cur.procs)

    -- What a row says of the process that it is about, and whether the process is new.
    pub record IsRowOf (k : ProcKey) (c : ProcSample) (r : ProcRate W) : Type ℓ where
      key : r.key ≡ k
      pid : r.pid ≡ c.stat.pid
      ppid : r.ppid ≡ c.stat.ppid
      comm : r.comm ≡ c.stat.comm
      state : r.state ≡ c.stat.state
      threads : r.threads ≡ c.stat.num_threads
      vsize : r.vsize_bytes ≡ c.stat.vsize
      rss : r.rss_bytes ≡ rss_bytes sys c.stat
      sockets : r.sockets ≡ c.sockets
      is_new : (r.is_new ≡ true) ↔ (lookup k prev.procs ≡ none)
      idle_if_new : lookup k prev.procs ≡ none → r.cpu_pct ≡ of_nat f 0
      unread : c.io ≡ none → (r.read_bps ≡ none) × (r.write_bps ≡ none)

    row-IsRowOf : (key : ProcKey) (c : ProcSample) → IsRowOf key c (row (key, c))
    unfolding proc_rate
    row-IsRowOf key c = record {
      key = refl;
      pid = refl;
      ppid = refl;
      comm = refl;
      state = refl;
      threads = refl;
      vsize = refl;
      rss = refl;
      sockets = refl;
      is_new = elim (Option-cases (lookup key prev.procs)) [
        | inl none' ↦ rw none' ((λ e. refl), (λ e. refl))
        | inr (p, some') ↦ rw some' ((λ e. cc), (λ e. cc))
      ];
      idle_if_new = λ e. rw e (unfold proc_cpu in refl);
      unread = λ e. rw e (
        io_rate_unread (λ io. io.read_bytes) (as_secs_f64 f (cur.at - prev.at))
            (lookup key prev.procs >>= (λ (s : ProcSample). s.io)),
        io_rate_unread (λ io. io.write_bytes) (as_secs_f64 f (cur.at - prev.at))
            (lookup key prev.procs >>= (λ (s : ProcSample). s.io)),
      );
    }

    -- With ordered arithmetic, the processes of `diff` are one row for each process of the current
    -- sample and no other row, under its key, with its name, numbers and memory. It is new, and
    -- without a CPU share, if the previous sample does not have the key, and without read and write
    -- rates if its counters are not read. No row has less CPU than the one that follows it, and if
    -- it has no more, it has no less memory.
    pub diff-IsSorted :
        IsOrdered f
        → IsRanked (diff f sys prev cur).procs
          × Permᴰ (diff f sys prev cur).procs (map row cur.procs)
          × ((key : ProcKey) (c : ProcSample) → IsRowOf key c (row (key, c)))
    unfolding diff
    diff-IsSorted ord = (
      IsSorted-IsRanked _
          (sort_by-IsSorted (goes_behind f) (goes_behind_asymm ord) (map row cur.procs)),
      diff-perm,
      row-IsRowOf,
    )

    -- The row of a process whose key the previous sample does not have is new and has no CPU share;
    -- its read and write rates are 0 if its counters are readable, and absent if they are not.
    pub row_new :
        (key : ProcKey) (c : ProcSample)
        → lookup key prev.procs ≡ none
        → ((row (key, c)).is_new ≡ true)
          × ((row (key, c)).cpu_pct ≡ of_nat f 0)
          × ((row (key, c)).read_bps ≡ option_map (λ (io : PidIo). of_nat f 0) c.io)
          × ((row (key, c)).write_bps ≡ option_map (λ (io : PidIo). of_nat f 0) c.io)
    unfolding proc_rate
    row_new key c h = rw h (
      refl,
      unfold proc_cpu in refl,
      io_rate_new (λ io. io.read_bytes) (as_secs_f64 f (cur.at - prev.at)) c.io,
      io_rate_new (λ io. io.write_bytes) (as_secs_f64 f (cur.at - prev.at)) c.io,
    )
