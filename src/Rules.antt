-- ===== src/Rules.antt =====
-- src/rules.rs: what a rule is. `Parse` reads rule files, and `Engine` runs the rules.
pub mod Parse
pub mod Engine
pub mod Evaluate
pub mod Machine
pub mod Trace
pub mod Tests
use vitals.Prelude.{ℕ, Bool, true, false, ◌||◌, Option, none, some, if◌then◌else◌, List}
use vitals.Text.{Text, codes, str_eq}

pub data Metric : Type 0 where
  cpu_pct mem_pct rss read_bps write_bps net_rx_bps net_tx_bps threads proc_count : Metric

-- `Metric::parse`.
unfoldable pub parse_metric : Text → Option Metric
parse_metric s =
    if str_eq s (codes "cpu_pct") || str_eq s (codes "cpu")
    then some cpu_pct
    else if str_eq s (codes "mem_pct")
    then some mem_pct
    else if str_eq s (codes "rss") || str_eq s (codes "rss_bytes") || str_eq s (codes "mem")
    then some rss
    else if str_eq s (codes "read_bps")
    then some read_bps
    else if str_eq s (codes "write_bps")
    then some write_bps
    else if str_eq s (codes "net_rx_bps")
    then some net_rx_bps
    else if str_eq s (codes "net_tx_bps")
    then some net_tx_bps
    else if str_eq s (codes "threads")
    then some threads
    else if str_eq s (codes "proc_count")
    then some proc_count
    else none

-- `Metric::is_bytes`.
unfoldable pub is_bytes : Metric → Bool
is_bytes rss = true
is_bytes read_bps = true
is_bytes write_bps = true
is_bytes net_rx_bps = true
is_bytes net_tx_bps = true
is_bytes _ = false

-- `Metric::applies_to_process`.
unfoldable pub applies_to_process : Metric → Bool
applies_to_process cpu_pct = true
applies_to_process rss = true
applies_to_process read_bps = true
applies_to_process write_bps = true
applies_to_process threads = true
applies_to_process _ = false

-- `Metric::name`.
unfoldable pub metric_name : Metric → Text
metric_name cpu_pct = codes "cpu_pct"
metric_name mem_pct = codes "mem_pct"
metric_name rss = codes "rss"
metric_name read_bps = codes "read_bps"
metric_name write_bps = codes "write_bps"
metric_name net_rx_bps = codes "net_rx_bps"
metric_name net_tx_bps = codes "net_tx_bps"
metric_name threads = codes "threads"
metric_name proc_count = codes "proc_count"

pub data Op : Type 0 where
  gt lt : Op

pub data Target : Type 0 where
  system : Target
  process : Text → Target

-- `Target::matches`.
unfoldable pub matches : Target → Text → Bool
matches system comm = false
matches (process p) comm = str_eq p (codes "*") || str_eq p comm

-- `sustain` is in nanoseconds.
pub record Rule {ℓ} (W : Type ℓ) : Type ℓ where
  pub name : Text
  pub target : Target
  pub metric : Metric
  pub op : Op
  pub threshold : W
  pub sustain : ℕ
  pub clear : W
