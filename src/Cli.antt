-- ===== src/Cli.antt =====
-- src/bin/vitals.rs: the command line. `flag` and `has` scan the arguments, and `settings` is what `main`
-- takes from them; the children have the rest of `main`.
pub mod Options
pub mod Start
pub mod Loop
mod Tests
use vitals.Float.{Float}
use vitals.Prelude.{
  ℕ, suc, ◌+◌, ◌^◌, Bool, true, false, ◌||◌, Option, none, some, List, [], ◌∷◌, if◌then◌else◌,
  get_elem?, ◌>>=◌, option_map, unwrap_or,
}
use vitals.Text.Number.{parse_u64}
use vitals.Text.{Text, codes, str_eq}
use vitals.Units.{parse_duration}

-- `iter().position`: where `k` stands first.
unfoldable pub position : List Text → Text → Option ℕ
position [] k = none
position (x ∷ xs) k = if str_eq x k then some 0 else option_map suc (position xs k)

unfoldable pub flag : List Text → Text → Option Text
unfolding position
flag a k = position a k >>= λ i. get_elem? a (i + 1)

unfoldable pub has : List Text → Text → Bool
has [] k = false
has (x ∷ xs) k = str_eq x k || has xs k

-- What `main` binds from the arguments. Durations are in nanoseconds.
pub record Settings : Type 0 where
  pub interval : ℕ
  pub top : ℕ
  pub root : Text
  pub json : Bool
  pub once : Bool
  pub run_for : Option ℕ
  pub rules : Option Text
  pub with_sockets : Bool

unfoldable pub wants_help : List Text → Bool
unfolding has
wants_help args = has args (codes "--help") || has args (codes "-h")

module _ {ℓ} {W : Type ℓ} (f : Float W) where
  unfoldable pub settings : List Text → Settings
  unfolding flag has parse_duration parse_u64
  settings args = record {
    interval = unwrap_or (flag args (codes "--interval") >>= parse_duration f) (10 ^ 9);
    top = unwrap_or (flag args (codes "--top") >>= parse_u64) 15;
    root = unwrap_or (flag args (codes "--proc-root")) (codes "/proc");
    json = has args (codes "--json");
    once = has args (codes "--once");
    run_for = flag args (codes "--duration") >>= parse_duration f;
    rules = flag args (codes "--rules");
    with_sockets = has args (codes "--sockets");
  }
