-- ===== src/Json.antt =====
-- src/bin/vitals.rs: the JSON output, `jstr`, `jnum` and `render_json`.
pub mod Strings
pub mod OneLine
mod Tests
use Prim.Native.String.{String}
use vitals.Delta.{ProcRate, SystemRate, Snapshot}
use vitals.Float.{Float, of_nat, as_secs_f64}
use vitals.Prelude.{
  ℕ, zero, suc, ◌+◌, ◌/◌, ◌%◌, Bool, true, false, Option, none, some, List, [], ◌∷◌, ◌++◌, map,
  take, if◌then◌else◌, ltb, leb, ◌==◌,
}
use vitals.Procfs.Mem.{used, used_pct}
use vitals.Sampler.{Shared}
use vitals.Text.Number.{display, display_int}
use vitals.Text.{Text, codes}

-- A hexadecimal digit, in lower case.
abbrev pub hex_digit : ℕ → ℕ
hex_digit n = if ltb n 10 then b'0' + n else 87 + n

-- `{:04x}`, of a number below 2^16.
abbrev pub hex4 : ℕ → Text
hex4 n =
    hex_digit (n / 4096 % 16)
    ∷ hex_digit (n / 256 % 16)
    ∷ hex_digit (n / 16 % 16)
    ∷ hex_digit (n % 16)
    ∷ []

-- The `match` on one character.
unfoldable pub escape : ℕ → Text
escape c =
    if c == b'"'
    then codes "\\\""
    else if c == b'\\'
    then codes "\\\\"
    else if c == 10
    then codes "\\n"
    else if c == 13
    then codes "\\r"
    else if c == 9
    then codes "\\t"
    else if ltb c 32
    then codes "\\u" ++ hex4 c
    else c ∷ []

unfoldable pub escaped : Text → Text
unfolding escape
escaped [] = []
escaped (c ∷ cs) = escape c ++ escaped cs

-- `jstr`.
unfoldable pub jstr : Text → Text
unfolding escaped
jstr s = b'"' ∷ (escaped s ++ b'"' ∷ [])

-- The loops that put a comma before each item but the first.
abbrev pub tail_items : List Text → Text
tail_items [] = []
tail_items (t ∷ ts) = b',' ∷ (t ++ tail_items ts)

abbrev pub comma_separated : List Text → Text
comma_separated [] = []
comma_separated (t ∷ ts) = t ++ tail_items ts

module _ {ℓ} {W : Type ℓ} (f : Float W) where
  -- `jnum`.
  unfoldable pub jnum : W → Text
  jnum v = if f.is_finite v then f.fixed 3 v else codes "null"

  abbrev pub jnum_or_null : Option W → Text
  jnum_or_null none = codes "null"
  jnum_or_null (some v) = jnum v

  abbrev pub field : String → Text → Text
  field name value = b'"' ∷ (codes name ++ (codes "\":" ++ value))

  unfoldable pub json_process : ProcRate W → Text
  unfolding jstr jnum display display_int
  json_process p =
      codes "{"
      ++ comma_separated (
          field "pid" (display_int p.pid)
          ∷ field "ppid" (display_int p.ppid)
          ∷ field "comm" (jstr p.comm)
          ∷ field "cpu_pct" (jnum p.cpu_pct)
          ∷ field "rss" (display p.rss_bytes)
          ∷ field "threads" (display_int p.threads)
          ∷ field "read_bps" (jnum_or_null p.read_bps)
          ∷ field "write_bps" (jnum_or_null p.write_bps)
          ∷ [])
      ++ codes "}"

  unfoldable pub json_alert : Text × Text × ℕ → Text
  unfolding jstr jnum as_secs_f64
  json_alert (rule, subject, dur) =
      codes "{"
      ++ comma_separated (
          field "rule" (jstr rule)
          ∷ field "subject" (jstr subject)
          ∷ field "firing_secs" (jnum (as_secs_f64 f dur))
          ∷ [])
      ++ codes "}"

  unfoldable pub json_system : SystemRate W → Text
  unfolding jnum used used_pct display
  json_system sys = comma_separated (
      field "cpu_pct" (jnum sys.cpu_pct)
      ∷ field "mem_pct" (jnum (used_pct f sys.mem))
      ∷ field "mem_used" (display (used sys.mem))
      ∷ field "mem_total" (display sys.mem.total)
      ∷ field "net_rx_bps" (jnum sys.net_rx_bps)
      ∷ field "net_tx_bps" (jnum sys.net_tx_bps)
      ∷ field "proc_count" (display sys.proc_count)
      ∷ field "vanished" (display sys.vanished)
      ∷ field "scan_micros" (display (sys.scan_time / 1000))
      ∷ [])

  -- `render_json`.
  unfoldable pub render_json : Snapshot W → Shared W → ℕ → Text
  unfolding json_system json_process json_alert
  render_json snap shared top =
      codes "{\"system\":{"
      ++ json_system snap.system
      ++ codes "},\"procs\":["
      ++ comma_separated (map json_process (take top snap.procs))
      ++ codes "],\"alerts\":["
      ++ comma_separated (map json_alert shared.active_alerts)
      ++ codes "]}"
