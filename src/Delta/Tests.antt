-- ===== src/Delta/Tests.antt =====
-- The properties of src/delta.rs at concrete samples.
use mathlib.Core.List.{Permᴰ}
use vitals.Delta.Fixtures.{sys, new_key, first, second}
use vitals.Delta.Order.{row, IsRanked, IsRowOf, diff-IsSorted}
use vitals.Delta.Net.{wrapped, sum_net-wrapped}
use vitals.Delta.Rates.{busy_lem}
use vitals.Delta.{sum_net, is_not_loopback, diff, pct}
use vitals.Float.Whole.{whole, whole-IsOrdered}
use vitals.Float.{of_nat}
use vitals.Prelude.{List, [], ◌∷◌, filter, ℕ, ◌+◌, ◌%◌, ◌≡◌, refl, none, map, arith, word, lookup}
use vitals.Sample.{ProcSample}
use vitals.Procfs.{ProcKey, NetDev, CpuTimes, busy, key_eq}
use vitals.Text.{Text, codes}

clamped : pct whole 30 20 ≡ 100
unfolding pct vitals.Float.clamp
clamped = refl

abbrev times : CpuTimes
times = record {
  user = 100;
  nice = 20;
  system = 30;
  idle = 1000;
  iowait = 5;
  irq = 1;
  softirq = 2;
  steal = 3;
  guest = 40;
  guest_nice = 10;
}

busy_lem_example : busy times ≡ (100 + 20 + 30 + 1 + 2 + 3) % word
busy_lem_example = busy_lem times (omega arith) (omega arith)

diff-IsSorted_example :
    IsRanked whole (diff whole sys first second).procs
    × Permᴰ (diff whole sys first second).procs (map (row whole sys first second) second.procs)
    × ((key : ProcKey) (c : ProcSample)
        → IsRowOf whole sys first second key c (row whole sys first second (key, c)))
diff-IsSorted_example = diff-IsSorted whole sys first second whole-IsOrdered

new_key_absent : lookup new_key first.procs ≡ none
unfolding lookup
new_key_absent = refl

abbrev interface : Text → ℕ → ℕ → NetDev
interface name rx tx = record {
  name = name;
  rx_bytes = rx;
  rx_packets = 4;
  rx_errs = 1;
  rx_drop = 0;
  tx_bytes = tx;
  tx_packets = 5;
  tx_errs = 2;
  tx_drop = 0;
}

abbrev interfaces : List NetDev
interfaces =
    interface (codes "lo") 500 500
    ∷ interface (codes "eth0") 18446744073709551615 7
    ∷ interface (codes "eth1") 3 8
    ∷ []

sum_net-wrapped_example : sum_net interfaces ≡ wrapped (filter is_not_loopback interfaces)
sum_net-wrapped_example = sum_net-wrapped interfaces

totals :
    wrapped (filter is_not_loopback interfaces)
    ≡ record { rx = 2; tx = 15; rx_errs = 2; tx_errs = 4 }
totals = refl
