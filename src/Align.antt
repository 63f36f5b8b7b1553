-- ===== src/Align.antt =====
-- What the code takes from l4/sys/consts.h, which is not part of the repository: the page size and
-- the rounding of addresses to multiples of a power of two.
pub mod Sample
use bootstrap.Prelude.{ℕ, ◌+◌, ◌*◌, ◌%◌, ◌^◌, ◌≤◌, ◌<◌, ◌≡◌}

-- `L4_PAGESHIFT`, `l4_round_size` and `l4_trunc_size`. The second argument of the functions is the
-- logarithm of the alignment.
pub record Align : Type 0 where
  pub page_shift : ℕ
  pub round_size : ℕ → ℕ → ℕ
  pub trunc_size : ℕ → ℕ → ℕ

-- `l4_round_page` and `l4_trunc_page`
abbrev pub round_page : Align → ℕ → ℕ
round_page a x = a.round_size x a.page_shift

abbrev pub trunc_page : Align → ℕ → ℕ
trunc_page a x = a.trunc_size x a.page_shift

-- The documented behaviour: the next multiple up or down. Rounding up is only said to work where
-- the result is a word.
pub record IsAlign (a : Align) : Type 0 where
  pub round_multiple : (x b : ℕ) → x + 2 ^ b ≤ 2 ^ 64 → a.round_size x b % 2 ^ b ≡ 0
  pub le_round : (x b : ℕ) → x + 2 ^ b ≤ 2 ^ 64 → x ≤ a.round_size x b
  pub round_lt : (x b : ℕ) → x + 2 ^ b ≤ 2 ^ 64 → a.round_size x b < x + 2 ^ b
  pub trunc_multiple : (x b : ℕ) → a.trunc_size x b % 2 ^ b ≡ 0
  pub trunc_le : (x b : ℕ) → a.trunc_size x b ≤ x
  pub lt_trunc : (x b : ℕ) → x < a.trunc_size x b + 2 ^ b
