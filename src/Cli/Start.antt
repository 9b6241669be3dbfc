-- ===== src/Cli/Start.antt =====
-- src/bin/vitals.rs: `main` from its arguments to the sampler that it spawns, or to the exit before.
pub mod Rules
use Prim.Native.String.{String}
use vitals.Cli.{Settings, wants_help, settings}
use vitals.Float.{Float}
use vitals.Prelude.{
  ℕ, ◌^◌, Bool, true, false, not, ◌&&◌, Option, none, some, List, [], ◌∷◌, ◌++◌, map, length,
  if◌then◌else◌, ok, err,
}
use vitals.Rules.Engine.{Engine}
use vitals.Rules.Engine as Engine
use vitals.Rules.Parse.{ParseError, display_error, parse_rules}
use vitals.Rules.{Rule}
use vitals.Sample.{Io, Collector}
use vitals.Sample as Sample
use vitals.Sampler.{SamplerConfig}
use vitals.Text.Number.{display}
use vitals.Text.{Text, codes}

-- A write to one of the two streams: `stderr` is a line, which its line feed follows, and `stdout` is the
-- text as it is written.
pub data Line : Type 0 where
  stdout stderr : Text → Line

-- The text of `usage`, by its lines.
abbrev usage_lines : List String
usage_lines =
    "vitals — live per-process resource monitor with alerting" ∷ "" ∷ "USAGE:"
    ∷ "  vitals [--interval 1s] [--top N] [--rules FILE] [--sockets]"
    ∷ "         [--once | --json] [--duration 30s] [--proc-root DIR]" ∷ "" ∷ "OPTIONS:"
    ∷ "  --interval D    sampling interval               (default 1s)"
    ∷ "  --top N         processes to display            (default 15)"
    ∷ "  --rules FILE    alert rule file; see docs       (default: none)"
    ∷ "  --sockets       attribute open sockets to pids  (costly; see DESIGN.md)"
    ∷ "  --once          print one snapshot and exit"
    ∷ "  --json          emit one JSON object per interval"
    ∷ "  --duration D    run for D then exit             (default: forever)"
    ∷ "  --proc-root DIR read this instead of /proc      (for testing)" ∷ []

abbrev with_feeds : List String → Text
with_feeds [] = []
with_feeds (l ∷ ls) = codes l ++ 10 ∷ with_feeds ls

unfoldable pub usage : Text
usage = with_feeds usage_lines

abbrev pub is_nil {ℓ} : {A : Type ℓ} → List A → Bool
is_nil [] = true
is_nil (x ∷ xs) = false

-- What comes of the option `--rules`: the program ends, or goes on with rules. Both have written lines.
pub data Load {ℓ} (W : Type ℓ) : Type ℓ where
  failed : List Line → Load W
  loaded : List Line → List (Rule W) → Load W

-- What `main` has when it has spawned the sampler.
pub record Started {ℓ} (W : Type ℓ) : Type ℓ where
  pub settings : Settings
  pub collector : Collector
  pub engine : Engine W
  pub config : SamplerConfig

pub data Outcome {ℓ} (W : Type ℓ) : Type ℓ where
  exits : ℕ → List Line → Outcome W
  starts : List Line → Started W → Outcome W

-- The lines about a rule file.
abbrev pub refused_line : (Text → Text) → Text → ParseError → Line
refused_line debug path e =
    stderr (codes "vitals: rule file " ++ (path ++ (codes ": " ++ display_error debug e)))

abbrev pub loaded_line : Text → ℕ → Line
loaded_line path n =
    stderr (codes "vitals: loaded " ++ (display n ++ (codes " alert rule(s) from " ++ path)))

abbrev pub unusable_line : Line
unusable_line = stderr (codes "vitals: no usable rules; exiting")

abbrev pub unread_line : Text → Text → Line
unread_line path why = stderr (codes "vitals: cannot read " ++ (path ++ (codes ": " ++ why)))

-- `debug` is `{:?}` of a string, and `read` is `std::fs::read_to_string`.
module _ {ℓ} {W : Type ℓ} (f : Float W) (debug : Text → Text) (read : Text → Io Text) where
  -- What follows `parse_rules`.
  unfoldable pub load_parsed : Text → List (Rule W) × List ParseError → Load W
  unfolding display_error display
  load_parsed path (rules, errs) =
      let lines = map (refused_line debug path) errs in
      if not (is_nil errs) && is_nil rules
      then failed (lines ++ unusable_line ∷ [])
      else loaded (lines ++ loaded_line path (length rules) ∷ []) rules

  unfoldable pub load_file : Text → Io Text → Load W
  unfolding parse_rules load_parsed
  load_file path (err e) = failed (unread_line path e.message ∷ [])
  load_file path (ok text) = load_parsed path (parse_rules f text)

  unfoldable pub load_rules : Option Text → Load W
  unfolding load_file
  load_rules none = loaded [] []
  load_rules (some path) = load_file path (read path)

  unfoldable pub spawn : Settings → Load W → Outcome W
  unfolding Sample.new Engine.new
  spawn s (failed lines) = exits 1 lines
  spawn s (loaded lines rules) = starts lines (record {
    settings = s;
    collector = record (Sample.new s.root) { with_sockets = s.with_sockets };
    engine = Engine.new f rules;
    config = record { interval = s.interval; history_len = 300; event_log_len = 200 };
  })

  unfoldable pub main : List Text → Outcome W
  unfolding usage settings wants_help load_rules spawn
  main args =
      if wants_help args
      then exits 2 (stderr usage ∷ [])
      else let s = settings f args in spawn s (load_rules s.rules)
