-- ===== src/Procfs/Pid/Printed.antt =====
-- About `/proc/[pid]/stat` as the kernel prints it, read by `parse_pid_stat`.
use vitals.Prelude.{
  ℕ, ◌^◌, ◌<◌, ◌≡◌, ◌≢◌, refl, ◌∙◌, some, List, [], ◌∷◌, ◌++◌, All, All-map, All-append, arith, ℤ,
  pos,
}
use vitals.Procfs.Pid.Comm.{Lacks, parse_pid_stat-pid_fields}
use vitals.Procfs.Pid.{pid_fields, parse_pid_stat}
use vitals.Procfs.{PidStat}
use vitals.Text.Display.{
  IsNumeric, display_int-All, parse_u64-display, parse_signed-display_int, Fits, display_int-ne-nil,
}
use vitals.Text.Number.{display, display_int}
use vitals.Text.Words.{IsInk, IsSolid, IsWord, spaced, split-spaced, trim-concat}
use vitals.Text.{Text, trim, is_whitespace, split_ascii_whitespace}

-- The fields of the line that the program does not read, named as proc(5) names them.
pub record Others : Type 0 where
  pub pgrp : Text
  pub session : Text
  pub tty_nr : Text
  pub tpgid : Text
  pub flags : Text
  pub minflt : Text
  pub cminflt : Text
  pub majflt : Text
  pub cmajflt : Text
  pub cutime : Text
  pub cstime : Text
  pub priority : Text
  pub nice : Text
  pub itrealvalue : Text
  pub later : List Text

-- The words after the name.
abbrev stat_words : PidStat → Others → List Text
stat_words s o =
    (s.state ∷ [])
    ∷ display_int s.ppid
    ∷ o.pgrp
    ∷ o.session
    ∷ o.tty_nr
    ∷ o.tpgid
    ∷ o.flags
    ∷ o.minflt
    ∷ o.cminflt
    ∷ o.majflt
    ∷ o.cmajflt
    ∷ display s.utime
    ∷ display s.stime
    ∷ o.cutime
    ∷ o.cstime
    ∷ o.priority
    ∷ o.nice
    ∷ display_int s.num_threads
    ∷ o.itrealvalue
    ∷ display s.starttime
    ∷ display s.vsize
    ∷ display_int s.rss_pages
    ∷ o.later

-- The line: the number of the process, its name in parentheses, the words, and a line feed.
abbrev pub stat_line : PidStat → Others → Text
stat_line s o =
    (display_int s.pid ++ b' ' ∷ []) ++ b'(' ∷ (s.comm ++ b')' ∷ spaced (stat_words s o) (10 ∷ []))

-- A field that the kernel prints: no white space and no parenthesis.
abbrev pub IsField : Text → Type 0
IsField w = IsWord w × Lacks b')' w

-- What the types of the kernel and of the program bound, and what the unread fields are.
pub record IsPrintable (s : PidStat) (o : Others) : Type 0 where
  pub pid : Fits (2 ^ 31) s.pid
  pub ppid : Fits (2 ^ 31) s.ppid
  pub utime : s.utime < 2 ^ 64
  pub stime : s.stime < 2 ^ 64
  pub num_threads : Fits (2 ^ 63) s.num_threads
  pub starttime : s.starttime < 2 ^ 64
  pub vsize : s.vsize < 2 ^ 64
  pub rss_pages : Fits (2 ^ 63) s.rss_pages
  pub state : IsField (s.state ∷ [])
  pub others : All IsField (
      o.pgrp ∷ o.session ∷ o.tty_nr ∷ o.tpgid ∷ o.flags ∷ o.minflt ∷ o.cminflt ∷ o.majflt
      ∷ o.cmajflt ∷ o.cutime ∷ o.cstime ∷ o.priority ∷ o.nice ∷ o.itrealvalue ∷ o.later)

numeric-IsInk : (c : ℕ) → IsNumeric c → IsInk c
numeric-IsInk c h = ground arith

numeric-IsSolid : (c : ℕ) → IsNumeric c → IsSolid c
unfolding is_whitespace
numeric-IsSolid c h = ground arith

-- A text of digits and signs that is not empty is a field.
IsField-numeric : (w : Text) → w ≢ [] → All IsNumeric w → IsField w
IsField-numeric [] ne all = absurd (ne refl)
IsField-numeric (c ∷ w) ne all = (
  (numeric-IsInk c all.0, All-map w numeric-IsInk all.1),
  All-map (c ∷ w) (λ d h. (λ e. ground arith)) all,
)

IsField-int : (z : ℤ) → IsField (display_int z)
IsField-int z = IsField-numeric (display_int z) (display_int-ne-nil z) (display_int-All z)

IsField-nat : (n : ℕ) → IsField (display n)
IsField-nat n = unfold display_int in IsField-int (pos n)

spaced-Lacks :
    (c : ℕ) (ws : List Text) (end : Text)
    → b' ' ≢ c
    → All (Lacks c) ws
    → Lacks c end
    → Lacks c (spaced ws end)
spaced-Lacks c [] end n all e = e
spaced-Lacks c (w ∷ ws) end n all e =
    (n, All-append (λ d. d ≢ c) w (spaced ws end) all.0 (spaced-Lacks c ws end n all.1 e))

module _ (s : PidStat) (o : Others) (p : IsPrintable s o) where
  stat_words-IsField : All IsField (stat_words s o)
  stat_words-IsField =
      let q = p.others in
      (
        p.state,
        (
          IsField-int s.ppid,
          (
            q.0,
            (
              q.1.0,
              (
                q.1.1.0,
                (
                  q.1.1.1.0,
                  (
                    q.1.1.1.1.0,
                    (
                      q.1.1.1.1.1.0,
                      (
                        q.1.1.1.1.1.1.0,
                        (
                          q.1.1.1.1.1.1.1.0,
                          (
                            q.1.1.1.1.1.1.1.1.0,
                            (
                              IsField-nat s.utime,
                              (
                                IsField-nat s.stime,
                                (
                                  q.1.1.1.1.1.1.1.1.1.0,
                                  (
                                    q.1.1.1.1.1.1.1.1.1.1.0,
                                    (
                                      q.1.1.1.1.1.1.1.1.1.1.1.0,
                                      (
                                        q.1.1.1.1.1.1.1.1.1.1.1.1.0,
                                        (
                                          IsField-int s.num_threads,
                                          (
                                            q.1.1.1.1.1.1.1.1.1.1.1.1.1.0,
                                            (
                                              IsField-nat s.starttime,
                                              (
                                                IsField-nat s.vsize,
                                                (
                                                  IsField-int s.rss_pages,
                                                  q.1.1.1.1.1.1.1.1.1.1.1.1.1.1,
                                                ),
                                              ),
                                            ),
                                          ),
                                        ),
                                      ),
                                    ),
                                  ),
                                ),
                              ),
                            ),
                          ),
                        ),
                      ),
                    ),
                  ),
                ),
              ),
            ),
          ),
        ),
      )

  head-Lacks : Lacks b'(' (display_int s.pid ++ b' ' ∷ [])
  head-Lacks =
      All-append (λ d. d ≢ b'(') (display_int s.pid) (b' ' ∷ [])
        (All-map (display_int s.pid) (λ d h. (λ e. ground arith)) (display_int-All s.pid))
        ((λ e. omega arith), tt)

  tail-Lacks : Lacks b')' (spaced (stat_words s o) (10 ∷ []))
  tail-Lacks =
      spaced-Lacks b')' (stat_words s o) (10 ∷ []) (λ e. omega arith)
        (All-map (stat_words s o) (λ w f. f.1) stat_words-IsField) ((λ e. omega arith), tt)

  words : split_ascii_whitespace (spaced (stat_words s o) (10 ∷ [])) ≡ stat_words s o
  words =
      split-spaced (stat_words s o) (10 ∷ [])
        (All-map (stat_words s o) (λ w f. f.0) stat_words-IsField) (refl, tt)

  pid_text : trim (display_int s.pid ++ b' ' ∷ []) ≡ display_int s.pid
  pid_text =
      trim-concat (display_int s.pid)
        (All-map (display_int s.pid) numeric-IsSolid (display_int-All s.pid))

  fields_read :
      pid_fields (display_int s.pid ++ b' ' ∷ []) s.comm (spaced (stat_words s o) (10 ∷ []))
      ≡ some s
  unfolding pid_fields
  fields_read =
      rw (words, pid_text)
        (rw
          (
            parse_signed-display_int (2 ^ 31) s.pid p.pid,
            parse_signed-display_int (2 ^ 31) s.ppid p.ppid,
            parse_u64-display s.utime p.utime,
            parse_u64-display s.stime p.stime,
            parse_signed-display_int (2 ^ 63) s.num_threads p.num_threads,
            parse_u64-display s.starttime p.starttime,
            parse_u64-display s.vsize p.vsize,
            parse_signed-display_int (2 ^ 63) s.rss_pages p.rss_pages,
          )
          refl)

  -- A line of `/proc/[pid]/stat` as the kernel prints it, with numbers in the range of their types,
  -- a state and unread fields without white space or `)`, parses to the record that it was printed
  -- from, whatever characters the name of the process holds.
  pub parse_pid_stat-stat_line : parse_pid_stat (stat_line s o) ≡ some s
  parse_pid_stat-stat_line =
      parse_pid_stat-pid_fields (display_int s.pid ++ b' ' ∷ []) s.comm
        (spaced (stat_words s o) (10 ∷ [])) head-Lacks tail-Lacks
      ∙ fields_read
