-- ===== src/Rules/Parse/Printed.antt =====
-- Rules written as the documents write them, and read back by `parse_rules`.
use vitals.Float.{Float}
use vitals.Prelude.{
  ◌≡◌, ◌≢◌, refl, ap, true, false, not, ◌&&◌, Option, none, some, List, [], ◌∷◌, ◌++◌, ok, ltb,
  length,
}
use vitals.Rules.Parse.{
  parse_target, parse_op, parse_value, is_sane, parse_clear, parse_tokens, is_process,
}
use vitals.Rules.{
  Metric, cpu_pct, mem_pct, rss, read_bps, write_bps, net_rx_bps, net_tx_bps, threads, proc_count,
  parse_metric, metric_name, applies_to_process, Op, gt, lt, Target, system, process, Rule,
}
use vitals.Text.{Text, codes}
use vitals.Units.{parse_duration}

-- The texts of a rule line that are read as numbers; `clear` may be left out.
pub record Numbers : Type 0 where
  pub value : Text
  pub lasting : Text
  pub clear : Option Text

abbrev pub target_text : Target → Text
target_text system = codes "system"
target_text (process p) = codes "process:" ++ p

abbrev pub op_text : Op → Text
op_text gt = codes ">"
op_text lt = codes "<"

abbrev pub clear_tokens : Option Text → List Text
clear_tokens none = []
clear_tokens (some v) = codes "clear" ∷ v ∷ []

parse_metric-metric_name : (m : Metric) → parse_metric (metric_name m) ≡ some m
unfolding parse_metric metric_name
parse_metric-metric_name cpu_pct = refl
parse_metric-metric_name mem_pct = refl
parse_metric-metric_name rss = refl
parse_metric-metric_name read_bps = refl
parse_metric-metric_name write_bps = refl
parse_metric-metric_name net_rx_bps = refl
parse_metric-metric_name net_tx_bps = refl
parse_metric-metric_name threads = refl
parse_metric-metric_name proc_count = refl

parse_op-op_text : (o : Op) → parse_op (op_text o) ≡ ok o
unfolding parse_op
parse_op-op_text gt = refl
parse_op-op_text lt = refl

-- A pattern, if there is one, is not empty.
abbrev pub HasPattern : Target → Type 0
HasPattern system = Unit
HasPattern (process p) = p ≢ []

parse_target-target_text : (t : Target) → HasPattern t → parse_target (target_text t) ≡ ok t
unfolding parse_target
parse_target-target_text system h = refl
parse_target-target_text (process []) h = absurd (h refl)
parse_target-target_text (process (c ∷ p)) h = refl

scoped_test :
    (t : Target) (m : Metric)
    → HasPattern t
    → (is_process t ≡ true → applies_to_process m ≡ true)
    → (is_process t && not (applies_to_process m)) ≡ false
scoped_test system m p h = refl
scoped_test (process c) m p h = rw (h refl) refl

module _ {ℓ} {W : Type ℓ} (f : Float W) where
  -- The tokens of a rule, behind `alert`.
  abbrev pub tokens : Rule W → Numbers → List Text
  tokens rule n =
      rule.name
      ∷ target_text rule.target
      ∷ metric_name rule.metric
      ∷ op_text rule.op
      ∷ n.value
      ∷ codes "for"
      ∷ n.lasting
      ∷ clear_tokens n.clear

  -- What the text of `clear` says for a rule.
  abbrev pub ReadsClear : Rule W → Option Text → Type ℓ
  ReadsClear rule none = rule.threshold ≡ rule.clear
  ReadsClear rule (some v) =
      (parse_value f v rule.metric ≡ some rule.clear)
      × (is_sane f rule.op rule.clear rule.threshold ≡ true)

  -- The texts are read as the rule's numbers, and the documents allow the rule.
  pub record Says (rule : Rule W) (n : Numbers) : Type ℓ where
    pub threshold : parse_value f n.value rule.metric ≡ some rule.threshold
    pub sustain : parse_duration f n.lasting ≡ some rule.sustain
    pub clear : ReadsClear rule n.clear
    pub pattern : HasPattern rule.target
    pub scoped : is_process rule.target ≡ true → applies_to_process rule.metric ≡ true

  parse_clear-tokens :
      (rule : Rule W) (n : Numbers) (c : Option Text)
      → ReadsClear rule c
      → parse_clear f
          (codes "alert" ∷ tokens rule (record n { clear = c }))
          rule.metric
          rule.op
          rule.threshold
        ≡ ok rule.clear
  unfolding parse_clear
  parse_clear-tokens rule n none h = ap ok h
  parse_clear-tokens rule n (some v) h = rw (h.0, h.1) refl

  size_test :
      (rule : Rule W) (n : Numbers) (c : Option Text)
      → ltb (length (codes "alert" ∷ tokens rule (record n { clear = c }))) 8 ≡ false
  size_test rule n none = refl
  size_test rule n (some v) = refl

  pub parse_tokens-tokens :
      (rule : Rule W) (n : Numbers)
      → Says rule n
      → parse_tokens f (codes "alert" ∷ tokens rule n) ≡ ok rule
  parse_tokens-tokens rule n s =
      unfold parse_tokens in
      rw
        (
          size_test rule n n.clear,
          parse_target-target_text rule.target s.pattern,
          parse_metric-metric_name rule.metric,
          scoped_test rule.target rule.metric s.pattern s.scoped,
          parse_op-op_text rule.op,
          s.threshold,
          s.sustain,
          parse_clear-tokens rule n n.clear s.clear,
        )
        refl
