-- ===== src/Json/Tests.antt =====
-- Names that need escapes.
use vitals.Json.Strings.{plain, read, read-jstr}
use vitals.Json.{escaped, jstr}
use vitals.Prelude.{◌≡◌, refl, some, [], ◌∷◌, ◌++◌}
use vitals.Delta.Fixtures.{shell_key, snapshot_at, row_at}
use vitals.Delta.{Snapshot}
use vitals.Float.Whole.{whole}
use vitals.Json.OneLine.{render_json-OneLine}
use vitals.Json.{render_json}
use vitals.Prelude.{ℕ, none}
use vitals.Ring as Ring
use vitals.Sampler.{Shared}
use vitals.Text.Feeds.{feeds, feeds-display}
use vitals.Text.{Text, codes}

-- A quotation mark, a backslash, and the characters 10 and 1.
abbrev odd_name : Text
odd_name = b'"' ∷ b'\\' ∷ 10 ∷ 1 ∷ []

odd_name_json : jstr odd_name ≡ codes "\"\\\"\\\\\\n\\u0001\""
unfolding jstr escaped vitals.Json.escape
odd_name_json = refl

read-jstr_example :
    (body : Text) × (jstr odd_name ++ codes "," ≡ b'"' ∷ body)
    × (read plain body ≡ some (odd_name, codes ","))
read-jstr_example = read-jstr odd_name (codes ",")

-- A process whose name holds a line feed.
abbrev odd_snapshot : Snapshot ℕ
odd_snapshot = snapshot_at 30 (record (row_at shell_key 3 none) { comm = odd_name } ∷ [])

abbrev no_alerts : Shared ℕ
no_alerts = record {
  latest = some odd_snapshot;
  history = Ring.new 4;
  events = Ring.new 4;
  active_alerts = [];
  last_error = none;
}

render_json-OneLine_example : feeds (render_json whole odd_snapshot no_alerts 15) ≡ 0
render_json-OneLine_example =
    render_json-OneLine whole (λ n w. feeds-display w) odd_snapshot no_alerts 15
