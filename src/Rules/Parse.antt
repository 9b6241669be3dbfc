-- ===== src/Rules/Parse.antt =====
-- src/rules.rs: `parse_rules`. A line is refused with the source's reason, or gives a rule; `Result`
-- stands for the `continue` after each call of `err`.
pub mod Sound
pub mod Extra
pub mod Printed
pub mod File
use Prim.Native.String.{String}
use vitals.Float.{Float, of_nat}
use vitals.Prelude.{
  ℕ, zero, suc, ◌+◌, Bool, true, false, not, ◌&&◌, ◌||◌, Option, none, some, List, [], ◌∷◌, ◌++◌,
  if◌then◌else◌, ◌==◌, ltb, Result, ok, err, get_or, length, option_map, or_else,
}
use vitals.Prelude.{try as ◌>>=◌}
use vitals.Rules.{
  Metric, parse_metric, is_bytes, applies_to_process, Op, gt, lt, Target, system, process, Rule,
}
use vitals.Text.{
  Text, codes, str_eq, is_empty, trim, lines, before, split_ascii_whitespace, strip_prefix,
}
use vitals.Text.Number.{display}
use vitals.Units.{parse_size, parse_duration}

pub record ParseError : Type 0 where
  pub line_no : ℕ
  pub line : Text
  pub reason : String

-- `Display` of a `ParseError`; `debug` is the standard library's `{:?}` of a string.
unfoldable pub display_error : (Text → Text) → ParseError → Text
unfolding display
display_error debug e =
    codes "line "
    ++ (display e.line_no
        ++ (codes ": " ++ (codes e.reason ++ (codes " (in: " ++ (debug e.line ++ codes ")")))))

-- `if test { err(reason); continue; }`.
abbrev pub refuse : Bool → String → Result String (Unit {0})
refuse true reason = err reason
refuse false reason = ok tt

abbrev pub ◌>>◌ {ℓ} : {A : Type ℓ} → Result String (Unit {0}) → Result String A → Result String A
◌>>◌ m k = ◌>>=◌ m (λ _. k)

-- `match option { Some(v) => v, None => { err(reason); continue; } }`.
abbrev pub expect {ℓ} : {A : Type ℓ} → Option A → String → Result String A
expect none reason = err reason
expect (some a) reason = ok a

unfoldable pub parse_target : Text → Result String Target
unfolding strip_prefix
parse_target t =
    if str_eq t (codes "system") then ok system else elim (strip_prefix (codes "process:") t) [
      | some p ↦ if is_empty p then err "empty process pattern" else ok (process p)
      | none ↦ err "target must be `system` or `process:<comm>` (or `process:*`)"
    ]

abbrev pub is_process : Target → Bool
is_process system = false
is_process (process p) = true

unfoldable pub parse_op : Text → Result String Op
parse_op t =
    if str_eq t (codes ">")
    then ok gt
    else if str_eq t (codes "<")
    then ok lt
    else err "operator must be > or <"

module _ {ℓ} {W : Type ℓ} (f : Float W) where
  unfoldable pub parse_value : Text → Metric → Option W
  unfolding is_bytes parse_size
  parse_value tok metric =
      if is_bytes metric
      then or_else (option_map (of_nat f) (parse_size f tok)) (f.parse tok)
      else f.parse tok

  -- The test of a `clear` value against its threshold.
  abbrev pub is_sane : Op → W → W → Bool
  is_sane gt clear threshold = f.le clear threshold
  is_sane lt clear threshold = f.le threshold clear

  -- The optional `clear <value>` behind the eighth token.
  unfoldable pub parse_clear : List Text → Metric → Op → W → Result String W
  unfolding parse_value
  parse_clear t metric op threshold =
      if ltb 8 (length t)
      then (do
        refuse (not (str_eq (get_or t 8 []) (codes "clear")) || ltb (length t) 10)
            "trailing tokens; expected `clear <value>`"
        clear ← expect (parse_value (get_or t 9 []) metric) "could not parse clear value"
        refuse (not (is_sane op clear threshold))
            "clear value is on the wrong side of the threshold; the alert could never clear"
        ok clear)
      else ok threshold

  -- The tokens of a line, from the first test to `rules.push`.
  unfoldable pub parse_tokens : List Text → Result String (Rule W)
  parse_tokens t = do
    refuse (not (str_eq (get_or t 0 []) (codes "alert"))) "expected a line beginning with `alert`"
    refuse (ltb (length t) 8)
        "too few fields; expected: alert <name> <target> <metric> <op> <value> for <dur>"
    target ← parse_target (get_or t 2 [])
    metric ← expect (parse_metric (get_or t 3 [])) "unknown metric"
    refuse (is_process target && not (applies_to_process metric))
        "that metric is system-wide and cannot be scoped to a process"
    op ← parse_op (get_or t 4 [])
    threshold ← expect (parse_value (get_or t 5 []) metric) "could not parse threshold value"
    refuse (not (str_eq (get_or t 6 []) (codes "for"))) "expected keyword `for` before the duration"
    sustain ← expect (parse_duration f (get_or t 7 [])) "could not parse duration"
    clear ← parse_clear t metric op threshold
    ok (record {
      name = get_or t 1 [];
      target = target;
      metric = metric;
      op = op;
      threshold = threshold;
      sustain = sustain;
      clear = clear;
    })

  -- The line with no comment, trimmed.
  abbrev pub stripped : Text → Text
  stripped raw = trim (before b'#' raw)

  abbrev pub add_line :
      ℕ
      → Text
      → Result String (Rule W)
      → List (Rule W) × List ParseError
      → List (Rule W) × List ParseError
  add_line n raw (ok rule) (rules, errs) = (rule ∷ rules, errs)
  add_line n raw (err why) (rules, errs) =
      (rules, record { line_no = n; line = raw; reason = why } ∷ errs)

  -- The loop over the lines; `n` is the number of the first one.
  unfoldable pub parse_lines : ℕ → List Text → List (Rule W) × List ParseError
  parse_lines n [] = ([], [])
  parse_lines n (raw ∷ more) =
      let rest = parse_lines (suc n) more in
      if is_empty (stripped raw)
      then rest
      else add_line n raw (parse_tokens (split_ascii_whitespace (stripped raw))) rest

  unfoldable pub parse_rules : Text → List (Rule W) × List ParseError
  parse_rules text = parse_lines 1 (lines text)
