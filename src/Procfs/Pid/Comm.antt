-- ===== src/Procfs/Pid/Comm.antt =====
-- About the name of a process in `/proc/[pid]/stat`, which may hold parentheses.
use vitals.Prelude.{
  ℕ, suc, ◌+◌, ◌-◌, ◌≡◌, ◌≢◌, refl, sym, ap, ◌∙◌, none, some, [], ◌∷◌, ◌++◌, arith, All, length,
  take, drop, length-append, append_assoc, ltb, ne→==_false, take-length-append, false,
}
use vitals.Procfs.Pid.{pid_fields, parse_pid_stat}
use vitals.Procfs.{PidStat}
use vitals.Text.{Text, find, rfind}

-- No character of the text is `c`.
abbrev pub Lacks : ℕ → Text → Type 0
Lacks c = All (λ d. d ≢ c)

find-append : (c : ℕ) (s t : Text) → Lacks c s → find c (s ++ c ∷ t) ≡ some (length s)
unfolding find
find-append c [] t l = ground arith
find-append c (d ∷ s) t l = rw (ne→==_false d c l.0, find-append c s t l.1)

rfind-Lacks : (c : ℕ) (t : Text) → Lacks c t → rfind c t ≡ none
unfolding rfind
rfind-Lacks c [] l = refl
rfind-Lacks c (d ∷ t) l = rw (rfind-Lacks c t l.1) (ground arith)

rfind-append : (c : ℕ) (s t : Text) → Lacks c t → rfind c (s ++ c ∷ t) ≡ some (length s)
unfolding rfind
rfind-append c [] t l = rw (rfind-Lacks c t l) (ground arith)
rfind-append c (d ∷ s) t l = rw (rfind-append c s t l)

drop_past : (c : ℕ) (s t : Text) → drop (length s + 1) (s ++ c ∷ t) ≡ t
drop_past c [] t = refl
drop_past c (d ∷ s) t =
    let e : suc (length s) + 1 ≡ suc (length s + 1) = omega arith in
    ap (λ n. drop n (d ∷ (s ++ c ∷ t))) e ∙ drop_past c s t

module _ (head comm tail : Text) where
  abbrev pub stat_text : Text
  stat_text = head ++ b'(' ∷ (comm ++ b')' ∷ tail)

  abbrev up_to_close : Text
  up_to_close = head ++ b'(' ∷ comm

  stat_text-eq : stat_text ≡ up_to_close ++ b')' ∷ tail
  stat_text-eq = sym (append_assoc head (b'(' ∷ comm) (b')' ∷ tail))

  length-up_to_close : length up_to_close ≡ length head + 1 + length comm
  length-up_to_close = omega (arith, length-append head (b'(' ∷ comm))

  name_slice :
      take (length up_to_close - (length head + 1)) (drop (length head + 1) stat_text) ≡ comm
  name_slice =
      let n : length up_to_close - (length head + 1) ≡ length comm =
        omega (arith, length-up_to_close) in
      rw (n, drop_past b'(' head (comm ++ b')' ∷ tail)) (take-length-append comm (b')' ∷ tail))

  rest_slice : drop (length up_to_close + 1) stat_text ≡ tail
  rest_slice = rw stat_text-eq (drop_past b')' up_to_close tail)

  -- A stat line is cut at its first `(` and its last `)`, and read by its fields: the name between
  -- them may hold spaces and parentheses, even unbalanced ones.
  pub parse_pid_stat-pid_fields :
      Lacks b'(' head → Lacks b')' tail → parse_pid_stat stat_text ≡ pid_fields head comm tail
  unfolding parse_pid_stat
  parse_pid_stat-pid_fields l r =
      let first = find-append b'(' head (comm ++ b')' ∷ tail) l in
      let last : rfind b')' stat_text ≡ some (length up_to_close) =
        ap (rfind b')') stat_text-eq ∙ rfind-append b')' up_to_close tail r in
      let order : ltb (length up_to_close) (length head) ≡ false =
        ground (arith, length-up_to_close) in
      rw (first, last, order, name_slice, rest_slice, take-length-append head _)

pid_fields_comm :
    (head comm tail : Text) {s : PidStat} → pid_fields head comm tail ≡ some s → s.comm ≡ comm
unfolding pid_fields
pid_fields_comm head comm tail h = ground arith

-- If a stat line parses, its `comm` is what stands between its first `(` and its last `)`,
-- verbatim.
pub comm-parse_pid_stat :
    (head comm tail : Text) {s : PidStat}
    → Lacks b'(' head
    → Lacks b')' tail
    → parse_pid_stat (head ++ b'(' ∷ (comm ++ b')' ∷ tail)) ≡ some s
    → s.comm ≡ comm
comm-parse_pid_stat head comm tail l r h =
    pid_fields_comm head comm tail (sym (parse_pid_stat-pid_fields head comm tail l r) ∙ h)
