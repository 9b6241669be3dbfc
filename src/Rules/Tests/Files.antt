-- ===== src/Rules/Tests/Files.antt =====
-- Rule files, good and bad.
use vitals.Float.Whole.{whole}
use vitals.Prelude.{arith, ◌≡◌, refl, [], ◌∷◌, map, ℕ, some}
use vitals.Rules.Parse.Extra.{parse_tokens_extra}
use vitals.Rules.Parse.{ParseError, parse_tokens, parse_rules, parse_value}
use vitals.Rules.Parse.File.{rule_line, IsWritable, parse_rules-rule_line}
use vitals.Rules.Parse.Printed.{Numbers}
use vitals.Text.Lines.{with_feeds}
use vitals.Text.Number.{parse_u64}
use vitals.Units.{parse_duration}
use vitals.Rules.{Rule, system, cpu_pct, gt}
use vitals.Text.{Text, codes, lines, is_whitespace, trim}

abbrev file : Text
file =
    codes "# rules\nalert hot system cpu > 80 for 10s clear 60\n\nalert bad system cpu > 80 for\n"

parse_tokens_extra_example :
    parse_tokens whole (
      codes "alert"
      ∷ codes "hot"
      ∷ codes "system"
      ∷ codes "cpu"
      ∷ codes ">"
      ∷ codes "80"
      ∷ codes "for"
      ∷ codes "10s"
      ∷ codes "clear"
      ∷ codes "60"
      ∷ codes "nonsense"
      ∷ [])
    ≡ parse_tokens whole (
        codes "alert"
        ∷ codes "hot"
        ∷ codes "system"
        ∷ codes "cpu"
        ∷ codes ">"
        ∷ codes "80"
        ∷ codes "for"
        ∷ codes "10s"
        ∷ codes "clear"
        ∷ codes "60"
        ∷ [])
parse_tokens_extra_example =
    parse_tokens_extra whole (codes "alert") (codes "hot") (codes "system") (codes "cpu")
      (codes ">") (codes "80") (codes "for") (codes "10s") (codes "clear") (codes "60")
      (codes "nonsense" ∷ [])

error_lines : map (λ (er : ParseError). er.line_no) (parse_rules whole file).1 ≡ 4 ∷ []
unfolding parse_rules vitals.Rules.Parse.parse_lines lines vitals.Text.trim vitals.Text.before
    parse_tokens vitals.Text.split_ascii_whitespace vitals.Rules.Parse.parse_target
    vitals.Rules.parse_metric vitals.Rules.Parse.parse_op vitals.Rules.Parse.parse_value
    vitals.Text.Number.parse_u64 vitals.Units.parse_duration vitals.Rules.Parse.parse_clear
error_lines = refl

abbrev hot_rule : Rule ℕ
hot_rule = record {
  name = codes "hot";
  target = system;
  metric = cpu_pct;
  op = gt;
  threshold = 80;
  sustain = 10000000000;
  clear = 60;
}

abbrev hot_numbers : Numbers
hot_numbers = record { value = codes "80"; lasting = codes "10s"; clear = some (codes "60") }

hot-IsWritable : IsWritable whole (hot_rule, hot_numbers)
unfolding is_whitespace parse_value parse_u64 parse_duration trim
hot-IsWritable = record {
  says = record {
    threshold = refl;
    sustain = refl;
    clear = (refl, refl);
    pattern = tt;
    scoped = λ e. cc;
  };
  name = ((λ e. cc), ground arith);
  pattern = tt;
  value = ((λ e. cc), ground arith);
  lasting = ((λ e. cc), ground arith);
  clear = ((λ e. cc), ground arith);
}

parse_rules-rule_line_example :
    parse_rules whole (with_feeds (map (rule_line whole) ((hot_rule, hot_numbers) ∷ [])))
    ≡ (hot_rule ∷ [], [])
parse_rules-rule_line_example =
    parse_rules-rule_line whole ((hot_rule, hot_numbers) ∷ []) (hot-IsWritable, tt)
