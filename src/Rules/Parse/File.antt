-- ===== src/Rules/Parse/File.antt =====
-- Files of rules written as the documents write them, and read back by `parse_rules`.
use vitals.Float.{Float}
use vitals.Prelude.{
  ℕ, suc, ◌≡◌, ◌≢◌, refl, ap, ◌∙◌, Option, none, some, List, [], ◌∷◌, ◌++◌, map, All, All-map,
  All-append, arith,
}
use vitals.Rules.Parse.Printed.{
  Numbers, target_text, op_text, clear_tokens, tokens, Says, parse_tokens-tokens,
}
use vitals.Rules.Parse.{parse_tokens, parse_lines, parse_rules, stripped}
use vitals.Rules.{
  Metric, cpu_pct, mem_pct, rss, read_bps, write_bps, net_rx_bps, net_tx_bps, threads, proc_count,
  metric_name, Op, gt, lt, Target, system, process, Rule,
}
use vitals.Text.Lines.{
  IsInline, with_feeds, lines-with_feeds, before-Lacks, trim-StartsSolid, IsPlainWord,
  reverse-StartsSolid,
}
use vitals.Text.Words.{IsInk, IsSolid, IsWord, spaced, split-words}
use vitals.Text.{Text, codes, is_whitespace, trim, split_ascii_whitespace}

-- A character of a rule line: no white space, and no start of a comment.
abbrev pub IsRuleChar : ℕ → Type 0
IsRuleChar c = IsSolid c × (c ≢ b'#')

abbrev pub IsRuleWord : Text → Type 0
IsRuleWord w = (w ≢ []) × All IsRuleChar w

abbrev pub HasRuleWord : Option Text → Type 0
HasRuleWord none = Unit
HasRuleWord (some w) = IsRuleWord w

abbrev pub HasRulePattern : Target → Type 0
HasRulePattern system = Unit
HasRulePattern (process p) = All IsRuleChar p

target_text-IsRuleWord : (t : Target) → HasRulePattern t → IsRuleWord (target_text t)
unfolding is_whitespace
target_text-IsRuleWord system h = ((λ e. cc), ground arith)
target_text-IsRuleWord (process p) h = ((λ e. cc), ground arith)

metric_name-IsRuleWord : (m : Metric) → IsRuleWord (metric_name m)
unfolding metric_name is_whitespace
metric_name-IsRuleWord cpu_pct = ((λ e. cc), ground arith)
metric_name-IsRuleWord mem_pct = ((λ e. cc), ground arith)
metric_name-IsRuleWord rss = ((λ e. cc), ground arith)
metric_name-IsRuleWord read_bps = ((λ e. cc), ground arith)
metric_name-IsRuleWord write_bps = ((λ e. cc), ground arith)
metric_name-IsRuleWord net_rx_bps = ((λ e. cc), ground arith)
metric_name-IsRuleWord net_tx_bps = ((λ e. cc), ground arith)
metric_name-IsRuleWord threads = ((λ e. cc), ground arith)
metric_name-IsRuleWord proc_count = ((λ e. cc), ground arith)

op_text-IsRuleWord : (o : Op) → IsRuleWord (op_text o)
unfolding is_whitespace
op_text-IsRuleWord gt = ((λ e. cc), ground arith)
op_text-IsRuleWord lt = ((λ e. cc), ground arith)

for-IsRuleWord : IsRuleWord (codes "for")
unfolding is_whitespace
for-IsRuleWord = ((λ e. cc), ground arith)

alert-IsRuleWord : IsRuleWord (codes "alert")
unfolding is_whitespace
alert-IsRuleWord = ((λ e. cc), ground arith)

clear_tokens-IsRuleWord : (c : Option Text) → HasRuleWord c → All IsRuleWord (clear_tokens c)
unfolding is_whitespace
clear_tokens-IsRuleWord none h = tt
clear_tokens-IsRuleWord (some w) h = (((λ e. cc), ground arith), (h, tt))

-- The words of a line, by their characters.
IsRuleWord-IsPlainWord : (w : Text) → IsRuleWord w → IsPlainWord w
IsRuleWord-IsPlainWord w h = (h.0, All-map w (λ c k. k.0) h.1)

solid-IsInk : (c : ℕ) → IsSolid c → IsInk c
unfolding is_whitespace
solid-IsInk c h = ground arith

solid-IsInline : (c : ℕ) → IsSolid c → IsInline c
unfolding is_whitespace
solid-IsInline c h = ((λ e. ground arith), (λ e. ground arith))

IsRuleWord-IsWord : (w : Text) → IsRuleWord w → IsWord w
IsRuleWord-IsWord [] h = absurd (h.0 refl)
IsRuleWord-IsWord (c ∷ w) h = (solid-IsInk c h.1.0.0, All-map w (λ d k. solid-IsInk d k.0) h.1.1)

-- What holds of the characters of the words and of a space holds of the line.
All-spaced :
    (P : ℕ → Type 0) (w : Text) (ws : List Text)
    → P b' '
    → All P w
    → All (All P) ws
    → All P (w ++ spaced ws [])
All-spaced P w [] space first rest = All-append P w [] first tt
All-spaced P w (v ∷ vs) space first rest =
    All-append P w (spaced (v ∷ vs) []) first (space, All-spaced P v vs space rest.0 rest.1)

module _ {ℓ} {W : Type ℓ} (f : Float W) where
  -- The line of a rule.
  abbrev pub rule_line : Rule W × Numbers → Text
  rule_line (rule, n) = codes "alert" ++ spaced (tokens f rule n) []

  -- A rule that can be written: its words are not empty, and hold no white space and no `#`.
  pub record IsWritable (w : Rule W × Numbers) : Type ℓ where
    pub says : Says f w.0 w.1
    pub name : IsRuleWord w.0.name
    pub pattern : HasRulePattern w.0.target
    pub value : IsRuleWord w.1.value
    pub lasting : IsRuleWord w.1.lasting
    pub clear : HasRuleWord w.1.clear

  tokens-IsRuleWord : (w : Rule W × Numbers) → IsWritable w → All IsRuleWord (tokens f w.0 w.1)
  tokens-IsRuleWord w p = (
    p.name,
    (
      target_text-IsRuleWord w.0.target p.pattern,
      (
        metric_name-IsRuleWord w.0.metric,
        (
          op_text-IsRuleWord w.0.op,
          (p.value, (for-IsRuleWord, (p.lasting, clear_tokens-IsRuleWord w.1.clear p.clear))),
        ),
      ),
    ),
  )

  line-stripped : (w : Rule W × Numbers) → IsWritable w → stripped f (rule_line w) ≡ rule_line w
  line-stripped w p =
      let ts = tokens f w.0 w.1 in
      let words = tokens-IsRuleWord w p in
      let plain = All-map ts IsRuleWord-IsPlainWord words in
      let lacks =
        All-spaced (λ c. c ≢ b'#') (codes "alert") ts (λ e. omega arith)
          (All-map {P = IsRuleChar} (codes "alert") (λ c k. k.1) alert-IsRuleWord.1)
          (All-map {P = IsRuleWord} ts (λ t k. All-map {P = IsRuleChar} t (λ c j. j.1) k.1)
            words) in
      ap trim (before-Lacks b'#' (rule_line w) lacks)
      ∙ trim-StartsSolid (rule_line w) (unfold is_whitespace in refl) (
          reverse-StartsSolid (codes "alert") ts
            (IsRuleWord-IsPlainWord (codes "alert") alert-IsRuleWord) plain)

  line-IsInline : (w : Rule W × Numbers) → IsWritable w → All IsInline (rule_line w)
  line-IsInline w p =
      let ts = tokens f w.0 w.1 in
      All-spaced IsInline (codes "alert") ts ((λ e. omega arith), (λ e. omega arith))
        (All-map {P = IsRuleChar} (codes "alert") (λ c k. solid-IsInline c k.0) alert-IsRuleWord.1)
        (All-map {P = IsRuleWord} ts
          (λ t k. All-map {P = IsRuleChar} t (λ c j. solid-IsInline c j.0) k.1)
          (tokens-IsRuleWord w p))

  line-split :
      (w : Rule W × Numbers)
      → IsWritable w
      → split_ascii_whitespace (rule_line w) ≡ codes "alert" ∷ tokens f w.0 w.1
  line-split w p =
      let ts = tokens f w.0 w.1 in
      split-words (codes "alert") ts []
        (
          IsRuleWord-IsWord (codes "alert") alert-IsRuleWord,
          All-map ts IsRuleWord-IsWord (tokens-IsRuleWord w p),
        )
        tt

  one_line :
      (k : ℕ) (w : Rule W × Numbers) (raws : List Text) (rules : List (Rule W))
      → IsWritable w
      → parse_lines f (suc k) raws ≡ (rules, [])
      → parse_lines f k (rule_line w ∷ raws) ≡ (w.0 ∷ rules, [])
  one_line k w raws rules p rest =
      let line = line-stripped w p in
      let parsed = ap (parse_tokens f) (line-split w p) ∙ parse_tokens-tokens f w.0 w.1 p.says in
      unfold parse_lines in rw (line, rest) (rw parsed refl)

  parse_lines-rule_line :
      (k : ℕ) (ws : List (Rule W × Numbers))
      → All IsWritable ws
      → parse_lines f k (map rule_line ws) ≡ (map (λ w. w.0) ws, [])
  parse_lines-rule_line k [] all = unfold parse_lines in refl
  parse_lines-rule_line k (w ∷ ws) all =
      one_line k w (map rule_line ws) (map (λ w. w.0) ws) all.0
        (parse_lines-rule_line (suc k) ws all.1)

  lines-IsInline :
      (ws : List (Rule W × Numbers)) → All IsWritable ws → All (All IsInline) (map rule_line ws)
  lines-IsInline [] all = tt
  lines-IsInline (w ∷ ws) all = (line-IsInline w all.0, lines-IsInline ws all.1)

  -- A file of rules, each written as the documents write it, with words without white space and
  -- `#`, with texts that are read as its numbers, and with no `clear` or one on the sane side,
  -- parses to exactly these rules, in order and with no error.
  pub parse_rules-rule_line :
      (ws : List (Rule W × Numbers))
      → All IsWritable ws
      → parse_rules f (with_feeds (map rule_line ws)) ≡ (map (λ w. w.0) ws, [])
  unfolding parse_rules
  parse_rules-rule_line ws all =
      ap (parse_lines f 1) (lines-with_feeds (map rule_line ws) (lines-IsInline ws all))
      ∙ parse_lines-rule_line 1 ws all
