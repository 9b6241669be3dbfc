-- ===== src/Procfs/Net/Printed.antt =====
-- `/proc/net/dev` as the kernel prints it, read by `parse_net_dev`.
use vitals.Prelude.{
  ℕ, ◌^◌, ◌<◌, ◌≡◌, ◌≢◌, refl, ap, ◌∙◌, some, List, [], ◌∷◌, ◌++◌, map, All, All-map, All-append,
  replicate, filter_map, drop, arith,
}
use vitals.Procfs.Net.{net_dev_line, parse_net_dev}
use vitals.Procfs.Counters.{
  displays-IsWord, numbers-display, solid-IsInline, space-IsInline, displays-IsInline,
}
use vitals.Procfs.Stat.{number_or_zero}
use vitals.Procfs.{NetDev}
use vitals.Text.Columns.{
  columns, split-row, split_once-append, trim-replicate, All-replicate, All-columns,
}
use vitals.Text.Lines.{IsInline, with_feeds, lines-with_feeds}
use vitals.Text.Number.{display}
use vitals.Text.Words.{IsSolid}
use vitals.Text.{Text, split_ascii_whitespace}

-- A line of the table: the interface, the counters that the program does not keep, and the spaces.
pub record Row : Type 0 where
  pub dev : NetDev
  pub rx_fifo : ℕ
  pub rx_frame : ℕ
  pub rx_compressed : ℕ
  pub rx_multicast : ℕ
  pub tx_fifo : ℕ
  pub tx_colls : ℕ
  pub tx_carrier : ℕ
  pub tx_compressed : ℕ
  pub pad : ℕ
  pub first_gap : ℕ
  pub gap : ℕ → ℕ

abbrev counters_behind : Row → List ℕ
counters_behind r =
    r.dev.rx_packets ∷ r.dev.rx_errs ∷ r.dev.rx_drop ∷ r.rx_fifo ∷ r.rx_frame ∷ r.rx_compressed
    ∷ r.rx_multicast ∷ r.dev.tx_bytes ∷ r.dev.tx_packets ∷ r.dev.tx_errs ∷ r.dev.tx_drop ∷ r.tx_fifo
    ∷ r.tx_colls ∷ r.tx_carrier ∷ r.tx_compressed ∷ []

-- The counters in the order of the columns.
abbrev pub counters : Row → List ℕ
counters r = r.dev.rx_bytes ∷ counters_behind r

abbrev counter_text : Row → Text
counter_text r =
    replicate r.first_gap b' '
    ++ (display r.dev.rx_bytes ++ columns r.gap 1 (map display (counters_behind r)))

-- The line: the first counter may stand right behind the colon.
abbrev pub net_line : Row → Text
net_line r = (replicate r.pad b' ' ++ r.dev.name) ++ b':' ∷ counter_text r

-- The name of an interface has no white space and no colon; the counters are of 64 bits.
pub record IsRow (r : Row) : Type 0 where
  pub name : All (λ c. IsSolid c × (c ≢ b':')) r.dev.name
  pub counts : All (λ n. n < 2 ^ 64) (counters r)

numbers_row :
    (r : Row) → IsRow r → map number_or_zero (split_ascii_whitespace (counter_text r)) ≡ counters r
numbers_row r p =
    ap (map number_or_zero) (
      split-row r.first_gap r.gap (display r.dev.rx_bytes) (map display (counters_behind r))
        (displays-IsWord (counters r)))
    ∙ numbers-display (counters r) p.counts

name-Lacks : (r : Row) → IsRow r → All (λ c. c ≢ b':') (replicate r.pad b' ' ++ r.dev.name)
name-Lacks r p =
    All-append (λ c. c ≢ b':') (replicate r.pad b' ') r.dev.name
      (All-replicate (λ c. c ≢ b':') r.pad b' ' (λ e. omega arith))
      (All-map r.dev.name (λ c k. k.1) p.name)

net_dev_line-net_line : (r : Row) → IsRow r → net_dev_line (net_line r) ≡ some r.dev
net_dev_line-net_line r p =
    let cut =
      split_once-append b':' (replicate r.pad b' ' ++ r.dev.name) (counter_text r)
        (name-Lacks r p) in
    let name = trim-replicate r.pad r.dev.name (All-map r.dev.name (λ c k. k.0) p.name) in
    unfold net_dev_line in rw (cut, numbers_row r p, name) refl

filter_map-net_line :
    (rs : List Row) → All IsRow rs → filter_map net_dev_line (map net_line rs) ≡ map (λ r. r.dev) rs
filter_map-net_line [] all = refl
filter_map-net_line (r ∷ rs) all =
    rw (net_dev_line-net_line r all.0) (ap (◌∷◌ r.dev) (filter_map-net_line rs all.1))

net_line-IsInline : (r : Row) → IsRow r → All IsInline (net_line r)
net_line-IsInline r p =
    let ds = displays-IsInline (counters r) in
    All-append IsInline (replicate r.pad b' ' ++ r.dev.name) (b':' ∷ counter_text r)
      (All-append IsInline (replicate r.pad b' ') r.dev.name
        (All-replicate IsInline r.pad b' ' space-IsInline)
        (All-map r.dev.name (λ c k. solid-IsInline c k.0) p.name))
      (
        ((λ e. omega arith), (λ e. omega arith)),
        All-append IsInline (replicate r.first_gap b' ')
            (display r.dev.rx_bytes ++ columns r.gap 1 (map display (counters_behind r)))
            (All-replicate IsInline r.first_gap b' ' space-IsInline)
            (All-append IsInline (display r.dev.rx_bytes)
              (columns r.gap 1 (map display (counters_behind r))) ds.0
              (All-columns IsInline r.gap 1 (map display (counters_behind r)) space-IsInline ds.1)),
      )

net_lines-IsInline : (rs : List Row) → All IsRow rs → All (All IsInline) (map net_line rs)
net_lines-IsInline [] all = tt
net_lines-IsInline (r ∷ rs) all = (net_line-IsInline r all.0, net_lines-IsInline rs all.1)

-- The table of interfaces as the kernel prints it, with counters below 2^64, names without white
-- space and colons, any spaces between the columns, none included behind the colon, and two lines
-- of headers, parses to its interfaces, in order.
pub parse_net_dev-net_line :
    (h₁ h₂ : Text) (rs : List Row)
    → All IsInline h₁
    → All IsInline h₂
    → All IsRow rs
    → parse_net_dev (with_feeds (h₁ ∷ h₂ ∷ map net_line rs)) ≡ map (λ r. r.dev) rs
parse_net_dev-net_line h₁ h₂ rs i₁ i₂ all =
    let cut = lines-with_feeds (h₁ ∷ h₂ ∷ map net_line rs) (i₁, (i₂, net_lines-IsInline rs all)) in
    unfold parse_net_dev in
    (ap (λ ls. filter_map net_dev_line (drop 2 ls)) cut ∙ filter_map-net_line rs all)
