-- ===== src/GccLib/Reduce.antt =====
-- The second loop of `ullmoddiv` and `umoddiv`.
use native.Mathlib.Nat.{mul_assoc, mul_comm, add-mul}
use bootstrap.Prelude.{
  ℕ, zero, suc, ◌+◌, ◌-◌, ◌*◌, ◌/◌, ◌^◌, ◌≤◌, ◌<◌, ◌≡◌, refl, inl, inr, arith, sym, ◌∙◌, ap, leb,
  ◌==◌, false, Bool-cases, leb→le, power_pos, ok, Result, if◌then◌else◌,
}
use bootstrap.GccLib.{ModDiv, reduce}
use bootstrap.GccLib.Bits.{or_bit, halve_up, halve}

-- A number doubled once more.
pub doubled : (s j : ℕ) → s * 2 ^ suc j ≡ s * 2 ^ j * 2
doubled s j = ap (λ p. s * p) (halve_up j) ∙ sym (mul_assoc s (2 ^ j) 2)

-- What the second loop leaves.
unfoldable pub Divided : ℕ → ℕ → ModDiv → Type 0
Divided div s md = (md.quotient * s + md.remainder ≡ div) × (md.remainder < s)

module _ (v div0 s0 : ℕ) where
  abbrev pub Halved : ℕ → ℕ → ℕ → ℕ → Type 0
  Halved f div j y =
      j ≤ f
      → div < s0 * 2 ^ j * 2
      → y * 2 ^ suc j * s0 + div ≡ div0
      → (md : ModDiv) × (reduce v (suc f) div (s0 * 2 ^ j) (2 ^ j) (y * 2 ^ suc j) ≡ ok md)
        × Divided div0 s0 md

  -- The end of a round: what is left is below the divisor, and the quotient has `y` so far.
  abbrev round_end : ℕ → ℕ → ℕ → ℕ → Result ModDiv
  round_end f div j i =
      if div == 0
      then ok (record { quotient = i; remainder = div })
      else if 2 ^ j / 2 == 0
      then ok (record { quotient = i; remainder = div })
      else reduce v f div (s0 * 2 ^ j / 2) (2 ^ j / 2) i

  -- The rounds that are left with one unit of fuel less.
  Later : ℕ → Type 0
  Later zero = Unit {0}
  Later (suc g) = (div j y : ℕ) → Halved g div j y

  round_end_lem :
      (f : ℕ)
      → Later f
      → (div j y : ℕ) → 0 < s0
      → j ≤ f
      → div < s0 * 2 ^ j
      → y * 2 ^ j * s0 + div ≡ div0
      → (md : ModDiv) × (round_end f div j (y * 2 ^ j) ≡ ok md) × Divided div0 s0 md
  unfolding Divided Later
  round_end_lem f next zero j y z h lt e =
      (record { quotient = y * 2 ^ j; remainder = 0 }, refl, (e, z))
  round_end_lem f next (suc d) zero y z h lt e =
      (record { quotient = y * 1; remainder = suc d }, stops, (e, omega (arith, lt)))
    where
      stops : round_end f (suc d) zero (y * 1) ≡ ok (record { quotient = y * 1; remainder = suc d })
      stops = ground arith
  round_end_lem zero next (suc d) (suc j) y z h lt e = absurd (omega arith)
  round_end_lem (suc g) next (suc d) (suc j) y z h lt e =
      let (md, runs, divided) =
        next (suc d) j y (omega arith) (omega (arith, lt, doubled s0 j)) e in
      (md, rw (something, halved, halved', some_left) runs, divided)
    where
      something : (suc d == 0) ≡ false
      something = ground arith

      halved : 2 ^ suc j / 2 ≡ 2 ^ j
      halved = ap (λ p. p / 2) (halve_up j) ∙ halve (2 ^ j)

      halved' : s0 * 2 ^ suc j / 2 ≡ s0 * 2 ^ j
      halved' = ap (λ p. p / 2) (doubled s0 j) ∙ halve (s0 * 2 ^ j)

      some_left : (2 ^ j == 0) ≡ false
      some_left = ground (arith, power_pos j)

  reduce_step : (f : ℕ) → Later f → (div j y : ℕ) → 0 < s0 → Halved f div j y
  unfolding reduce
  reduce_step f next div j y z h lt e = elim (Bool-cases (leb (s0 * 2 ^ j) div)) [
    | inl p ↦
        let below : s0 * 2 ^ j ≤ div = leb→le (s0 * 2 ^ j) div p in
        rw (p, or_bit j y, odd)
          (round_end_lem f next (div - s0 * 2 ^ j) j (y * 2 + 1) z h (omega (arith, lt, below)) (
            grind (
              arith,
              e,
              below,
              ap (λ q. q * s0) (sym odd),
              add-mul (y * 2 ^ suc j) (2 ^ j) s0,
              mul_comm (2 ^ j) s0,
            )))
    | inr p ↦
        rw (p, even)
          (round_end_lem f next div j (y * 2) z h (ground (arith, p))
            (ap (λ q. q * s0 + div) (sym even) ∙ e))
  ]
    where
      even : y * 2 ^ suc j ≡ y * 2 * 2 ^ j
      even = grind (arith, doubled y j)

      odd : y * 2 ^ suc j + 2 ^ j ≡ (y * 2 + 1) * 2 ^ j
      odd = grind (arith, doubled y j, add-mul (y * 2) 1 (2 ^ j))

  pub reduce_halves : (f div j y : ℕ) → 0 < s0 → Halved f div j y
  unfolding Later
  reduce_halves zero div j y z = reduce_step zero tt div j y z
  reduce_halves (suc g) div j y z =
      reduce_step (suc g) (λ div' j' y'. reduce_halves g div' j' y' z) div j y z
