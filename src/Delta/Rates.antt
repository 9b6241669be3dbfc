-- ===== src/Delta/Rates.antt =====
-- Percentages and rates: what the counters' arithmetic comes to.
use vitals.Delta.{pct}
use vitals.Float.{Float, of_nat, IsOrdered, clamp_bounds}
use native.Mathlib.Nat.{mod-add-mod}
use vitals.Prelude.{
  ℕ, ◌+◌, ◌%◌, ◌<◌, ◌≡◌, ap, ◌∙◌, inl, inr, true, arith, word, add_word, sub_word, ◌==◌, Bool-cases,
}
use vitals.Procfs.{CpuTimes, total, busy}

sub_word-add : (y i : ℕ) → i < word → sub_word ((y + i) % word) i ≡ y % word
sub_word-add y i b = omega arith

flat : (a b : ℕ) → add_word (a % word) b ≡ (a + b) % word
flat a b = mod-add-mod a word b

total_flat :
    (c : CpuTimes)
    → total c
      ≡ (((c.user + c.nice + c.system + c.irq + c.softirq + c.steal) + c.iowait) + c.idle) % word
unfolding total
total_flat c =
    simp
      (
        flat (c.user + c.nice) c.system,
        flat (c.user + c.nice + c.system) c.idle,
        flat (c.user + c.nice + c.system + c.idle) c.iowait,
        flat (c.user + c.nice + c.system + c.idle + c.iowait) c.irq,
        flat (c.user + c.nice + c.system + c.idle + c.iowait + c.irq) c.softirq,
        flat (c.user + c.nice + c.system + c.idle + c.iowait + c.irq + c.softirq) c.steal,
      )
      (ap (λ n. n % word) (omega arith))

-- With `idle` and `iowait` below 2^64, `busy` is the wrapped sum of the six columns that are
-- neither idle time nor guest time: the subtractions undo the additions also where the sum of all
-- columns has wrapped.
pub busy_lem :
    (c : CpuTimes)
    → c.idle < word
    → c.iowait < word
    → busy c ≡ (c.user + c.nice + c.system + c.irq + c.softirq + c.steal) % word
unfolding busy
busy_lem c idle iowait =
    let s = c.user + c.nice + c.system + c.irq + c.softirq + c.steal in
    ap (λ n. sub_word (sub_word n c.idle) c.iowait) (total_flat c)
    ∙ ap (λ n. sub_word n c.iowait) (sub_word-add (s + c.iowait) c.idle idle)
    ∙ sub_word-add s c.iowait iowait

module _ {ℓ} {W : Type ℓ} (f : Float W) (ord : IsOrdered f) where
  -- With ordered arithmetic, `pct` of two numbers below 2^64 lies between 0 and 100.
  pub pct_bounds :
      (busy_delta total_delta : ℕ)
      → busy_delta < word
      → total_delta < word
      → (f.le (of_nat f 0) (pct f busy_delta total_delta) ≡ true)
        × (f.le (pct f busy_delta total_delta) (of_nat f 100) ≡ true)
  unfolding pct
  pct_bounds b t hb ht = elim (Bool-cases (t == 0)) [
    | inl z ↦ rw z (ord.int_mono 0 0 (omega arith), ord.int_mono 0 100 (omega arith))
    | inr nz ↦ rw nz (
        clamp_bounds f ord (of_nat f 0) (of_nat f 100) _ (ord.int_mono 0 100 (omega arith))
          (ord.int_mono 0 0 (omega arith)) (ord.int_mono 100 100 (omega arith))
          (ord.ratio_number b t 100 hb (ground arith) ht (omega arith)))
  ]
