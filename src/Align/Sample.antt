-- ===== src/Align/Sample.antt =====
-- A rounding that meets the documented behaviour, with pages of 4 KiB.
use bootstrap.Prelude.{ℕ, ◌+◌, ◌-◌, ◌*◌, ◌/◌, ◌^◌, ◌≤◌, ◌<◌, arith, power_pos}
use native.Mathlib.Nat.{lt-mul-div-succ, mul-div-le, mul-mod_right}
use bootstrap.Align.{Align, IsAlign}

abbrev pub sample : Align
sample = record {
  page_shift = 12;
  round_size = λ x b. 2 ^ b * ((x + (2 ^ b - 1)) / 2 ^ b);
  trunc_size = λ x b. 2 ^ b * (x / 2 ^ b);
}

-- The two facts about `/` behind the laws.
quotient_bounds : (x m : ℕ) → 0 < m → (m * (x / m) ≤ x) × (x < m * (x / m) + m)
quotient_bounds x m h = (mul-div-le x m, omega (arith, lt-mul-div-succ x h))

pub sample-IsAlign : IsAlign sample
sample-IsAlign = record {
  round_multiple = λ x b h. mul-mod_right (2 ^ b) ((x + (2 ^ b - 1)) / 2 ^ b);
  le_round =
      λ x b h. omega (arith, quotient_bounds (x + (2 ^ b - 1)) (2 ^ b) (power_pos b), power_pos b);
  round_lt =
      λ x b h. omega (arith, quotient_bounds (x + (2 ^ b - 1)) (2 ^ b) (power_pos b), power_pos b);
  trunc_multiple = λ x b. mul-mod_right (2 ^ b) (x / 2 ^ b);
  trunc_le = λ x b. mul-div-le x (2 ^ b);
  lt_trunc = λ x b. omega (arith, quotient_bounds x (2 ^ b) (power_pos b));
}
