-- ===== src/Rules/Parse/Sound.antt =====
-- About the rules and the errors that `parse_rules` returns.
use Prim.Native.String.{String}
use vitals.Float.{Float}
use vitals.Prelude.{
  ℕ, suc, ◌+◌, ◌-◌, ◌≤◌, ◌≡◌, ◌≢◌, ◌⊎◌, refl, inl, inr, Bool, false, true, not, some, List, [], ◌∷◌,
  arith, All, All-map, length, filter, get_elem?, Result, ok, err, Bool-cases,
}
use vitals.Rules.Parse.{
  ParseError, parse_target, is_sane, parse_clear, parse_tokens, stripped, add_line, parse_lines,
  parse_rules,
}
use vitals.Rules.{Metric, applies_to_process, Op, Target, system, process, Rule}
use vitals.Text.{Text, is_empty, lines, split_ascii_whitespace}

sub_self : (n : ℕ) → n - n ≡ 0
sub_self n = omega arith

module _ {ℓ} {W : Type ℓ} (f : Float W) where
  -- A process rule names a pattern, and a metric that a process has.
  abbrev pub IsScoped : Target → Metric → Type 0
  IsScoped system metric = Unit
  IsScoped (process p) metric = (p ≢ []) × (applies_to_process metric ≡ true)

  -- What holds of every rule that the parser accepts: its `clear` is its threshold, or lies on the side
  -- of it where the alert can clear.
  pub record IsWellFormed (rule : Rule W) : Type ℓ where
    pub scoped : IsScoped rule.target rule.metric
    pub sane : (rule.clear ≡ rule.threshold) ⊎ (is_sane f rule.op rule.clear rule.threshold ≡ true)

  parse_clear_sane :
      (t : List Text) (metric : Metric) (op : Op) (threshold : W) {clear : W}
      → parse_clear f t metric op threshold ≡ ok clear
      → (clear ≡ threshold) ⊎ (is_sane f op clear threshold ≡ true)
  unfolding parse_clear
  parse_clear_sane t metric op threshold h = grind arith

  parse_target_pattern : (t : Text) {p : Text} → parse_target t ≡ ok (process p) → p ≢ []
  unfolding parse_target
  parse_target_pattern t h = ground arith

  parse_tokens-IsWellFormed :
      (t : List Text) {rule : Rule W} → parse_tokens f t ≡ ok rule → IsWellFormed rule
  unfolding parse_tokens
  parse_tokens-IsWellFormed t h = grind (arith, parse_target_pattern, parse_clear_sane)

  -- A line that holds more than blanks and a comment.
  abbrev pub is_rule_line : Text → Bool
  is_rule_line raw = not (is_empty (stripped f raw))

  -- The error names this line, by its text and by its number in the file.
  abbrev pub PointsInto : ℕ → List Text → ParseError → Type 0
  PointsInto n ls er = (n ≤ er.line_no) × (get_elem? ls (er.line_no - n) ≡ some er.line)

  -- The rules and the errors of the lines from number `n` on, line by line: a blank one gives nothing, and
  -- each other one its rule, or an error with its number, its text and the reason.
  pub data Lines : ℕ → List Text → List (Rule W) → List ParseError → Type ℓ where
    done : {n : ℕ} → Lines n [] [] []
    blank :
        {n : ℕ} {raw : Text} {ls : List Text} {rules : List (Rule W)} {errs : List ParseError}
        → is_rule_line raw ≡ false
        → Lines (suc n) ls rules errs
        → Lines n (raw ∷ ls) rules errs
    accepted :
        {n : ℕ} {raw : Text} {ls : List Text} {rules : List (Rule W)} {errs : List ParseError}
        (rule : Rule W)
        → is_rule_line raw ≡ true
        → parse_tokens f (split_ascii_whitespace (stripped f raw)) ≡ ok rule
        → Lines (suc n) ls rules errs
        → Lines n (raw ∷ ls) (rule ∷ rules) errs
    refused :
        {n : ℕ} {raw : Text} {ls : List Text} {rules : List (Rule W)} {errs : List ParseError}
        (why : String)
        → is_rule_line raw ≡ true
        → parse_tokens f (split_ascii_whitespace (stripped f raw)) ≡ err why
        → Lines (suc n) ls rules errs
        → Lines n (raw ∷ ls) rules (record { line_no = n; line = raw; reason = why } ∷ errs)

  -- What comes of the lines from number `n` on.
  pub record Accounted (n : ℕ) (ls : List Text) (out : List (Rule W) × List ParseError)
      : Type ℓ where
    pub formed : All IsWellFormed out.0
    pub placed : All (PointsInto n ls) out.1
    pub counted : length out.0 + length out.1 ≡ length (filter is_rule_line ls)
    pub by_line : Lines n ls out.0 out.1

  PointsInto-cons :
      (n : ℕ) (raw : Text) (ls : List Text) (er : ParseError)
      → PointsInto (suc n) ls er
      → PointsInto n (raw ∷ ls) er
  PointsInto-cons n raw ls er (le, there) =
      let e : er.line_no - n ≡ suc (er.line_no - suc n) = omega arith in (omega arith, rw e there)

  add_line-Accounted :
      (n : ℕ) (raw : Text) (ls : List Text) (r : Result String (Rule W))
      (rest : List (Rule W) × List ParseError)
      → is_rule_line raw ≡ true
      → ((rule : Rule W) → r ≡ ok rule → IsWellFormed rule)
      → parse_tokens f (split_ascii_whitespace (stripped f raw)) ≡ r
      → Accounted (suc n) ls rest
      → Accounted n (raw ∷ ls) (add_line f n raw r rest)
  add_line-Accounted n raw ls (ok rule) rest there formed is a = record {
    formed = (formed rule refl, a.formed);
    placed = All-map rest.1 (PointsInto-cons n raw ls) a.placed;
    counted = rw there (omega (arith, a.counted));
    by_line = accepted rule there is a.by_line;
  }
  add_line-Accounted n raw ls (err why) rest there formed is a = record {
    formed = a.formed;
    placed =
        ((omega arith, rw (sub_self n) refl), All-map rest.1 (PointsInto-cons n raw ls) a.placed);
    counted = rw there (omega (arith, a.counted));
    by_line = refused why there is a.by_line;
  }

  parse_lines-Accounted : (n : ℕ) (ls : List Text) → Accounted n ls (parse_lines f n ls)
  unfolding parse_lines
  parse_lines-Accounted n [] = record { formed = tt; placed = tt; counted = refl; by_line = done }
  parse_lines-Accounted n (raw ∷ ls) = elim (Bool-cases (is_empty (stripped f raw))) [
    | inl blank' ↦
        let rest = parse_lines-Accounted (suc n) ls in
        rw blank' (record {
          formed = rest.formed;
          placed = All-map _ (PointsInto-cons n raw ls) rest.placed;
          counted = rw blank' rest.counted;
          by_line = blank (rw blank' refl) rest.by_line;
        })
    | inr full ↦ rw full (
        add_line-Accounted n raw ls (parse_tokens f (split_ascii_whitespace (stripped f raw)))
          (parse_lines f (suc n) ls) (rw full)
          (λ rule. parse_tokens-IsWellFormed (split_ascii_whitespace (stripped f raw))) refl
          (parse_lines-Accounted (suc n) ls))
  ]

  -- Each line of a rule file that is not blank gives one rule or one error. A process rule has a
  -- pattern and a metric that a process has, the `clear` value of each rule is its threshold or on
  -- the sane side of it, and each error quotes its line under the number that it has in the file,
  -- from 1.
  pub parse_rules-Accounted : (text : Text) → Accounted 1 (lines text) (parse_rules f text)
  unfolding parse_rules
  parse_rules-Accounted text = parse_lines-Accounted 1 (lines text)
