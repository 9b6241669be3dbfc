-- ===== src/Cli/Tests.antt =====
-- Command lines, and the start and the loop of `main` on some of them.
use vitals.Cli.Loop.Ends.{Output, by_clock, main_loop-ends}
use vitals.Cli.Loop.{Round, broke, main_loop}
use vitals.Cli.Options.{Opt, switch, valued, words, IsUsage, chosen, settings-words}
use vitals.Cli.Start.Rules.{Verdict, main-Verdict}
use vitals.Cli.Start.{Line, main}
use vitals.Cli.{Settings, flag, has, settings, wants_help}
use vitals.Float.Whole.{whole, whole-IsOrdered, whole-IsRounding}
use vitals.Prelude.{arith, ℕ, ◌≡◌, refl, false, true, none, some, List, [], ◌∷◌, ◌++◌, All, ok}
use vitals.Ring as Ring
use vitals.Sample.{Io}
use vitals.Text.{Text, codes}

abbrev options : List Opt
options = switch (codes "--json") ∷ valued (codes "--top") (codes "3") ∷ []

options-IsUsage : All IsUsage options
unfolding has
options-IsUsage = (refl, ((refl, refl), tt))

settings-words_example :
    (settings whole (words options) ≡ chosen whole options) × (wants_help (words options) ≡ false)
settings-words_example = settings-words whole options options-IsUsage

-- A value spelled like an option is also taken as one.
taken_twice :
    let args = codes "--proc-root" ∷ codes "--json" ∷ [] in
    (flag args (codes "--proc-root") ≡ some (codes "--json")) × (has args (codes "--json") ≡ true)
unfolding flag has
taken_twice = (refl, refl)

abbrev read_rules : Text → Io Text
read_rules path = ok (codes "alert hot system cpu > 80 for 10s\nalert\n")

abbrev quoted : Text → Text
quoted t = b'"' ∷ (t ++ b'"' ∷ [])

abbrev rule_args : List Text
rule_args = codes "--rules" ∷ codes "r.txt" ∷ []

main-Verdict_example :
    Verdict whole quoted read_rules
      (settings whole rule_args)
      (codes "r.txt")
      (main whole quoted read_rules rule_args)
unfolding wants_help settings
main-Verdict_example = main-Verdict whole quoted read_rules rule_args (codes "r.txt") refl refl

abbrev for_a_second : Settings
for_a_second = record {
  interval = 1000000000;
  top = 15;
  root = codes "/proc";
  json = false;
  once = false;
  run_for = some 1000000000;
  rules = none;
  with_sockets = false;
}

abbrev round_at : ℕ → Round ℕ
round_at elapsed = record {
  shared = record {
    latest = none;
    history = Ring.new 4;
    events = Ring.new 4;
    active_alerts = [];
    last_error = some (codes "denied");
  };
  elapsed = elapsed;
}

main_loop-ends_example :
    (lines : List Line) × Output whole for_a_second (round_at 5 ∷ round_at 1000000007 ∷ []) lines
    × (main_loop whole for_a_second (round_at 5 ∷ round_at 1000000007 ∷ round_at 2000000009 ∷ [])
        ≡ (lines, broke))
main_loop-ends_example =
    main_loop-ends whole whole-IsOrdered whole-IsRounding for_a_second (round_at 5 ∷ [])
      (round_at 1000000007) (round_at 2000000009 ∷ [])
      (record { again = refl; early = λ d e. ground arith }, tt)
      (by_clock 1000000000 refl (omega arith))
