-- ===== src/Prelude/Words.antt =====
-- `unsigned long` on the 64-bit targets: a number below 2 ^ 64, with the wrap-around written out.
use Prim.Native.Nat.{ℕ, zero, suc, ◌+◌, ◌-◌, ◌%◌, ◌^◌, ◌<◌}
use native.Mathlib.Nat.{pow-suc}
use native.Mathlib.Omega.{arith}

abbrev pub word_mod : ℕ
word_mod = 2 ^ 64

-- `~0UL`
abbrev pub word_max : ℕ
word_max = 2 ^ 64 - 1

abbrev pub add_word : ℕ → ℕ → ℕ
add_word a b = (a + b) % 2 ^ 64

abbrev pub sub_word : ℕ → ℕ → ℕ
sub_word a b = (a + 2 ^ 64 - b) % 2 ^ 64

pub power_pos : (b : ℕ) → 0 < 2 ^ b
power_pos zero = omega arith
power_pos (suc b) = omega (arith, pow-suc 2 b, power_pos b)
