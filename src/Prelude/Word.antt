-- ===== src/Prelude/Word.antt =====
-- `u64` and `usize` arithmetic as the release build has it: sums and products wrap at 2^64.
use Prim.Native.Nat.{ℕ, ◌+◌, ◌-◌, ◌*◌, ◌%◌, ◌^◌, min}

abbrev pub word : ℕ
word = 2 ^ 64

abbrev pub add_word : ℕ → ℕ → ℕ
add_word a b = (a + b) % word

abbrev pub sub_word : ℕ → ℕ → ℕ
sub_word a b = (a + word - b) % word

abbrev pub mul_word : ℕ → ℕ → ℕ
mul_word a b = (a * b) % word

-- `saturating_mul`.
abbrev pub saturating_mul : ℕ → ℕ → ℕ
saturating_mul a b = min (a * b) (word - 1)
