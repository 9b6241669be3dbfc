-- ===== src/Json/OneLine.antt =====
-- About the JSON output: an object stands on one line, whatever the names of the processes are.
use Prim.Native.String.{String}
use vitals.Delta.{ProcRate, SystemRate, Snapshot}
use vitals.Float.{Float, as_secs_f64}
use vitals.Json.{
  escape, escaped, jstr, tail_items, comma_separated, jnum, jnum_or_null, field, json_process,
  json_alert, json_system, render_json,
}
use vitals.Prelude.{
  ℕ, ◌≡◌, refl, Option, none, some, List, [], ◌∷◌, ◌++◌, map, take, All, arith, ◌/◌,
}
use vitals.Procfs.Mem.{used, used_pct}
use vitals.Sampler.{Shared}
use vitals.Text.Feeds.{feeds, feeds-append, feeds-display, feeds-display_int}
use vitals.Text.Number.{display, display_int}
use vitals.Text.{Text, codes}
use vitals.Units.Feeds.{HasNoFeed}

abbrev OneLine : Text → Type 0
OneLine t = feeds t ≡ 0

OneLine-append : (s t : Text) → OneLine s → OneLine t → OneLine (s ++ t)
OneLine-append s t h k = omega (arith, feeds-append s t)

OneLine-escape : (c : ℕ) → OneLine (escape c)
unfolding escape
OneLine-escape c = ground arith

OneLine-escaped : (s : Text) → OneLine (escaped s)
unfolding escaped
OneLine-escaped [] = refl
OneLine-escaped (c ∷ s) =
    OneLine-append (escape c) (escaped s) (OneLine-escape c) (OneLine-escaped s)

OneLine-jstr : (s : Text) → OneLine (jstr s)
unfolding jstr
OneLine-jstr s = omega (arith, feeds-append (escaped s) (b'"' ∷ []), OneLine-escaped s)

OneLine-tail : (ts : List Text) → All OneLine ts → OneLine (tail_items ts)
OneLine-tail [] all = refl
OneLine-tail (t ∷ ts) all = omega (arith, feeds-append t (tail_items ts), OneLine-tail ts all.1)

OneLine-comma_separated : (ts : List Text) → All OneLine ts → OneLine (comma_separated ts)
OneLine-comma_separated [] all = refl
OneLine-comma_separated (t ∷ ts) all =
    OneLine-append t (tail_items ts) all.0 (OneLine-tail ts all.1)

json_parts :
    (a b c : Text)
    → OneLine a
    → OneLine b
    → OneLine c
    → OneLine (
        codes "{\"system\":{"
        ++ a
        ++ codes "},\"procs\":["
        ++ b
        ++ codes "],\"alerts\":["
        ++ c
        ++ codes "]}")
json_parts a b c h k l =
    let s₁ = codes "{\"system\":{" ++ a in
    let s₂ = s₁ ++ codes "},\"procs\":[" in
    let s₃ = s₂ ++ b in
    let s₄ = s₃ ++ codes "],\"alerts\":[" in
    let s₅ = s₄ ++ c in
    let h₁ = OneLine-append (codes "{\"system\":{") a refl h in
    let h₂ = OneLine-append s₁ (codes "},\"procs\":[") h₁ refl in
    let h₃ = OneLine-append s₂ b h₂ k in
    let h₄ = OneLine-append s₃ (codes "],\"alerts\":[") h₃ refl in
    let h₅ = OneLine-append s₄ c h₄ l in OneLine-append s₅ (codes "]}") h₅ refl

OneLine-map {ℓ} :
    {A : Type ℓ} (print : A → Text) (xs : List A)
    → ((x : A) → OneLine (print x))
    → All OneLine (map print xs)
OneLine-map print [] h = tt
OneLine-map print (x ∷ xs) h = (h x, OneLine-map print xs h)

-- Texts of which each is one line, with the proof.
abbrev Item : Type 0
Item = (t : Text) × OneLine t

abbrev texts : List Item → List Text
texts [] = []
texts (i ∷ is) = i.0 ∷ texts is

All-texts : (is : List Item) → All OneLine (texts is)
All-texts [] = tt
All-texts (i ∷ is) = (i.1, All-texts is)

OneLine-items : (is : List Item) → OneLine (comma_separated (texts is))
OneLine-items is = OneLine-comma_separated (texts is) (All-texts is)

OneLine-object : (is : List Item) → OneLine (codes "{" ++ comma_separated (texts is) ++ codes "}")
OneLine-object is =
    omega (arith, feeds-append (comma_separated (texts is)) (codes "}"), OneLine-items is)

module _ {ℓ} {W : Type ℓ} (f : Float W) (plain : HasNoFeed f) where
  OneLine-jnum : (v : W) → OneLine (jnum f v)
  unfolding jnum
  OneLine-jnum v = ground (arith, plain 3 v)

  OneLine-jnum_or_null : (v : Option W) → OneLine (jnum_or_null f v)
  OneLine-jnum_or_null none = refl
  OneLine-jnum_or_null (some v) = OneLine-jnum v

  item : (name : String) (v : Text) → OneLine (codes name) → OneLine v → OneLine (field f name v)
  item name v h k = omega (arith, feeds-append (codes name) (codes "\":" ++ v))

  -- A field with its name.
  abbrev entry : (name : String) (v : Text) → OneLine (codes name) → OneLine v → Item
  entry name v h k = (field f name v, item name v h k)

  OneLine-process : (p : ProcRate W) → OneLine (json_process f p)
  unfolding json_process
  OneLine-process p = OneLine-object (
      entry "pid" (display_int p.pid) refl (feeds-display_int p.pid)
      ∷ entry "ppid" (display_int p.ppid) refl (feeds-display_int p.ppid)
      ∷ entry "comm" (jstr p.comm) refl (OneLine-jstr p.comm)
      ∷ entry "cpu_pct" (jnum f p.cpu_pct) refl (OneLine-jnum p.cpu_pct)
      ∷ entry "rss" (display p.rss_bytes) refl (feeds-display p.rss_bytes)
      ∷ entry "threads" (display_int p.threads) refl (feeds-display_int p.threads)
      ∷ entry "read_bps" (jnum_or_null f p.read_bps) refl (OneLine-jnum_or_null p.read_bps)
      ∷ entry "write_bps" (jnum_or_null f p.write_bps) refl (OneLine-jnum_or_null p.write_bps)
      ∷ [])

  OneLine-alert : (a : Text × Text × ℕ) → OneLine (json_alert f a)
  unfolding json_alert
  OneLine-alert (rule, subject, dur) = OneLine-object (
      entry "rule" (jstr rule) refl (OneLine-jstr rule)
      ∷ entry "subject" (jstr subject) refl (OneLine-jstr subject)
      ∷ entry "firing_secs" (jnum f (as_secs_f64 f dur)) refl (OneLine-jnum (as_secs_f64 f dur))
      ∷ [])

  OneLine-system : (sys : SystemRate W) → OneLine (json_system f sys)
  unfolding json_system
  OneLine-system sys = OneLine-items (
      entry "cpu_pct" (jnum f sys.cpu_pct) refl (OneLine-jnum sys.cpu_pct)
      ∷ entry "mem_pct" (jnum f (used_pct f sys.mem)) refl (OneLine-jnum (used_pct f sys.mem))
      ∷ entry "mem_used" (display (used sys.mem)) refl (feeds-display (used sys.mem))
      ∷ entry "mem_total" (display sys.mem.total) refl (feeds-display sys.mem.total)
      ∷ entry "net_rx_bps" (jnum f sys.net_rx_bps) refl (OneLine-jnum sys.net_rx_bps)
      ∷ entry "net_tx_bps" (jnum f sys.net_tx_bps) refl (OneLine-jnum sys.net_tx_bps)
      ∷ entry "proc_count" (display sys.proc_count) refl (feeds-display sys.proc_count)
      ∷ entry "vanished" (display sys.vanished) refl (feeds-display sys.vanished)
      ∷ entry "scan_micros" (display (sys.scan_time / 1000)) refl
          (feeds-display (sys.scan_time / 1000))
      ∷ [])

  -- With numbers printed without line feeds, the object of a snapshot holds no line feed, whatever
  -- characters the names of its processes, rules and subjects hold: `--json` writes one object on
  -- one line.
  pub render_json-OneLine :
      (snap : Snapshot W) (shared : Shared W) (top : ℕ) → feeds (render_json f snap shared top) ≡ 0
  render_json-OneLine snap shared top =
      let procs = map (json_process f) (take top snap.procs) in
      let alerts = map (json_alert f) shared.active_alerts in
      let ps =
        OneLine-comma_separated procs
          (OneLine-map (json_process f) (take top snap.procs) OneLine-process) in
      let as' =
        OneLine-comma_separated alerts
          (OneLine-map (json_alert f) shared.active_alerts OneLine-alert) in
      unfold render_json in
      json_parts (json_system f snap.system) (comma_separated procs) (comma_separated alerts)
        (OneLine-system snap.system) ps as'
