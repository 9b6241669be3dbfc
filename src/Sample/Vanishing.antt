-- ===== src/Sample/Vanishing.antt =====
-- About processes that exit during a scan.
use vitals.Prelude.{
  ℕ, ◌+◌, ◌%◌, ◌^◌, ◌<◌, ◌≡◌, refl, ap, ◌∙◌, Bool, true, false, Option, none, some, List, [], ◌∷◌,
  ℤ, ◌⊎◌, inl, inr, Unique, insert-Unique, ok, err, All, filter, length, arith, if◌then◌else◌, ◌==◌,
  Bool-cases,
}
use vitals.Procfs.{key_eq, PidStat, key}
use vitals.Procfs.Pid.{parse_pid_stat}
use vitals.Sample.{
  Sample, ErrorKind, not_found, permission_denied, other, Fs, Collector, Io, IoError, Scan,
  read_pid, add_process, vanish, scan_pid, scan_pids, list_pids, collect,
}
use vitals.Text.{Text, codes}

-- A read that says that its process is gone: no such file, or errno 3.
abbrev pub is_gone_error : ErrorKind → Option ℕ → Bool
is_gone_error not_found n = true
is_gone_error _ none = false
is_gone_error _ (some n) = n == 3

abbrev pub is_gone : Io Text → Bool
is_gone (ok s) = false
is_gone (err e) = is_gone_error e.kind e.raw_os_error

-- Text, or a process that is gone.
pub data Readable : Io Text → Type 0 where
  read : (s : Text) → Readable (ok s)
  gone : (e : IoError) → is_gone (err e) ≡ true → Readable (err e)

read_pid_gone :
    (kind : ErrorKind) (n : Option ℕ) (m : Text)
    → is_gone_error kind n ≡ true
    → read_pid (err (record { kind = kind; raw_os_error = n; message = m })) ≡ ok none
unfolding read_pid
read_pid_gone not_found n m h = refl
read_pid_gone permission_denied none m h = cc
read_pid_gone permission_denied (some n) m h = rw h refl
read_pid_gone other none m h = cc
read_pid_gone other (some n) m h = rw h refl

read_pid-cases :
    (t : Io Text)
    → Readable t
    → ((s : Text) × (read_pid t ≡ ok (some s)) × (is_gone t ≡ false))
      ⊎ ((read_pid t ≡ ok none) × (is_gone t ≡ true))
read_pid-cases _ (Readable.read s) = inl (s, unfold read_pid in refl, refl)
read_pid-cases _ (Readable.gone e h) = inr (read_pid_gone e.kind e.raw_os_error e.message h, h)

module _ (fs : Fs) (c : Collector) where
  abbrev pub stat_of : ℤ → Io Text
  stat_of pid = fs.read_pid_file pid (codes "stat")

  abbrev pub gone_count : List ℤ → ℕ
  gone_count pids = length (filter (λ pid. is_gone (stat_of pid)) pids)

  -- What the scan of some processes makes of `scan`, `gone` of them having exited.
  record Scanned (gone : ℕ) (scan scan' : Scan) : Type 0 where
    unique : Unique scan.procs → Unique scan'.procs
    vanished : scan'.vanished ≡ (scan.vanished + gone) % 2 ^ 32

  add_process-Scanned :
      (pid : ℤ) (stat : Option PidStat) (scan : Scan)
      → scan.vanished < 2 ^ 32
      → Scanned 0 scan (add_process fs c pid stat scan)
  unfolding add_process
  add_process-Scanned pid none scan small = record { unique = λ u. u; vanished = omega arith }
  add_process-Scanned pid (some stat) scan small = record {
    unique = λ u. insert-Unique (key stat) _ scan.procs u;
    vanished = omega arith;
  }

  gone_count_cons :
      (pid : ℤ) (pids : List ℤ)
      → gone_count (pid ∷ pids) ≡ (if is_gone (stat_of pid) then 1 else 0) + gone_count pids
  gone_count_cons pid pids = elim (Bool-cases (is_gone (stat_of pid))) [
    | inl h ↦ rw h (omega arith)
    | inr h ↦ rw h (omega arith)
  ]

  joined : (v w k m n : ℕ) → w ≡ (v + k) % 2 ^ 32 → n ≡ k + m → (w + m) % 2 ^ 32 ≡ (v + n) % 2 ^ 32
  joined v w k m n hw hn = omega arith

  vanish-Scanned : (scan : Scan) → Scanned 1 scan (vanish scan)
  vanish-Scanned scan = record { unique = λ u. u; vanished = refl }

  scan_pid-Scanned :
      (pid : ℤ) (scan : Scan)
      → Readable (stat_of pid)
      → scan.vanished < 2 ^ 32
      → (scan' : Scan) × (scan_pid fs c pid scan ≡ ok scan')
        × Scanned (if is_gone (stat_of pid) then 1 else 0) scan scan'
  unfolding scan_pid
  scan_pid-Scanned pid scan r small = elim (read_pid-cases (stat_of pid) r) [
    | inl (s, h, stays) ↦
        rw (h, stays) (_, refl, add_process-Scanned pid (parse_pid_stat s) scan small)
    | inr (h, exited) ↦ rw (h, exited) (_, refl, vanish-Scanned scan)
  ]

  scan_pids-Scanned :
      (pids : List ℤ) (scan : Scan)
      → All (λ pid. Readable (stat_of pid)) pids
      → scan.vanished < 2 ^ 32
      → (scan' : Scan) × (scan_pids fs c pids scan ≡ ok scan')
        × Scanned (gone_count pids) scan scan'
  unfolding scan_pids
  scan_pids-Scanned [] scan all small =
      (scan, refl, record { unique = λ u. u; vanished = omega arith })
  scan_pids-Scanned (pid ∷ pids) scan (r, all) small =
      let (scan₁, h₁, s₁) = scan_pid-Scanned pid scan r small in
      let (scan₂, h₂, s₂) = scan_pids-Scanned pids scan₁ all (rw s₁.vanished (omega arith)) in
      (
        scan₂,
        rw h₁ h₂,
        record {
          unique = λ u. s₂.unique (s₁.unique u);
          vanished =
              s₂.vanished
              ∙ joined scan.vanished scan₁.vanished _ (gone_count pids) (gone_count (pid ∷ pids))
                  s₁.vanished (gone_count_cons pid pids);
        },
      )

  -- A scan whose `stat`, `meminfo` and listing are read, and whose processes are each read or gone,
  -- returns a sample, whatever its other reads return; its table has no key twice, and it counts
  -- the processes that are gone, as a `u32`.
  pub collect-ok :
      (at elapsed : ℕ) {stat meminfo : Text} {pids : List ℤ}
      → fs.read_root (codes "stat") ≡ ok stat
      → fs.read_root (codes "meminfo") ≡ ok meminfo
      → list_pids fs.read_dir ≡ ok pids
      → All (λ pid. Readable (stat_of pid)) pids
      → (s : Sample) × (collect fs c at elapsed ≡ ok s)
        × Unique s.procs
        × (s.vanished ≡ gone_count pids % 2 ^ 32)
  unfolding collect
  collect-ok at elapsed {pids = pids} hs hm hl all =
      let (scan, h, s) =
        scan_pids-Scanned pids (record { procs = []; vanished = 0; io_denied = 0 }) all
          (omega arith) in
      rw (hs, hm, hl, h) (_, refl, s.unique tt, s.vanished ∙ ap (λ n. n % 2 ^ 32) (omega arith))
