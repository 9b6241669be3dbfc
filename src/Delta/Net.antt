-- ===== src/Delta/Net.antt =====
-- About the totals over the network interfaces.
use vitals.Delta.{NetSum, fold_net, is_not_loopback, sum_net}
use vitals.Prelude.{ℕ, ◌+◌, ◌%◌, ◌<◌, ◌≡◌, ◌∙◌, List, [], ◌∷◌, filter, word, add_word, arith}
use vitals.Procfs.{NetDev}

-- The sum of a counter over some interfaces, without wrap-around.
abbrev pub total_of : (NetDev → ℕ) → List NetDev → ℕ
total_of count [] = 0
total_of count (n ∷ ns) = count n + total_of count ns

-- The four sums, each wrapped once.
abbrev pub wrapped : List NetDev → NetSum
wrapped ns = record {
  rx = total_of (λ n. n.rx_bytes) ns % word;
  tx = total_of (λ n. n.tx_bytes) ns % word;
  rx_errs = total_of (λ n. n.rx_errs) ns % word;
  tx_errs = total_of (λ n. n.tx_errs) ns % word;
}

abbrev behind : NetSum → List NetDev → NetSum
behind a ns = record {
  rx = (a.rx + total_of (λ n. n.rx_bytes) ns) % word;
  tx = (a.tx + total_of (λ n. n.tx_bytes) ns) % word;
  rx_errs = (a.rx_errs + total_of (λ n. n.rx_errs) ns) % word;
  tx_errs = (a.tx_errs + total_of (λ n. n.tx_errs) ns) % word;
}

record IsWrapped (a : NetSum) : Type 0 where
  rx : a.rx < word
  tx : a.tx < word
  rx_errs : a.rx_errs < word
  tx_errs : a.tx_errs < word

wrap_add : (a b t : ℕ) → (add_word a b + t) % word ≡ (a + (b + t)) % word
wrap_add a b t = omega arith

net_sum_eq :
    {a b : NetSum}
    → a.rx ≡ b.rx
    → a.tx ≡ b.tx
    → a.rx_errs ≡ b.rx_errs
    → a.tx_errs ≡ b.tx_errs
    → a ≡ b
net_sum_eq p q r t = ground arith

fold_net-behind : (ns : List NetDev) (a : NetSum) → IsWrapped a → fold_net a ns ≡ behind a ns
unfolding fold_net
fold_net-behind [] a w =
    net_sum_eq (omega (arith, w.rx)) (omega (arith, w.tx)) (omega (arith, w.rx_errs))
      (omega (arith, w.tx_errs))
fold_net-behind (n ∷ ns) a w =
    fold_net-behind ns _
      (record { rx = omega arith; tx = omega arith; rx_errs = omega arith; tx_errs = omega arith })
    ∙ net_sum_eq (wrap_add a.rx n.rx_bytes (total_of (λ m. m.rx_bytes) ns))
        (wrap_add a.tx n.tx_bytes (total_of (λ m. m.tx_bytes) ns))
        (wrap_add a.rx_errs n.rx_errs (total_of (λ m. m.rx_errs) ns))
        (wrap_add a.tx_errs n.tx_errs (total_of (λ m. m.tx_errs) ns))

-- The totals of `sum_net` are the sums of each counter over all interfaces but `lo`, wrapped at
-- 2^64 once, however many interfaces there are and wherever the running sums wrap.
pub sum_net-wrapped : (ns : List NetDev) → sum_net ns ≡ wrapped (filter is_not_loopback ns)
sum_net-wrapped ns =
    let zeros : NetSum = record { rx = 0; tx = 0; rx_errs = 0; tx_errs = 0 } in
    let all = fold_net-behind (filter is_not_loopback ns) zeros (omega arith) in
    unfold sum_net in (all ∙ net_sum_eq (omega arith) (omega arith) (omega arith) (omega arith))
