-- ===== src/GccLib/Scale.antt =====
-- The first loop of `ullmoddiv` and `umoddiv`.
use native.Mathlib.Nat.{
  mul_right_comm, mul-le-mul_right, div-eq_of_lt, div-eq_of_lt-le, mod-eq_of_lt, mul-pos,
}
use bootstrap.Prelude.{
  ℕ, zero, suc, ◌+◌, ◌*◌, ◌/◌, ◌%◌, ◌^◌, ◌≤◌, ◌<◌, ◌≡◌, refl, inl, inr, arith, ◌∙◌, ap, ltb, leb,
  ◌==◌, true, false, Bool-cases, leb→le, power_pos, ok, Result, ◌&&◌,
}
use bootstrap.GccLib.{scale}
use bootstrap.GccLib.Bits.{halve_up}
use bootstrap.GccLib.Reduce.{doubled}

-- The first loop stops at the last doubling of the divisor that fits or that reaches `div`.
module _ (v div s0 : ℕ) where
  scale_stops : (s : ℕ) → s < 2 ^ suc v → 2 ^ v ≤ s → (s / 2 ^ v % 2 == 0) ≡ false
  scale_stops s lt le =
      let one : s / 2 ^ v ≡ 1 =
        div-eq_of_lt-le (2 ^ v) (omega (arith, le)) (omega (arith, lt, halve_up v)) in
      ground (arith, one)

  scale_goes : (s : ℕ) → s < 2 ^ v → (s / 2 ^ v % 2 == 0) ≡ true
  scale_goes s lt = ground (arith, div-eq_of_lt lt)

  scale_rests :
      (f s tmp : ℕ)
      → ((s / 2 ^ v % 2 == 0) && ltb s div) ≡ false
      → scale v (suc f) div s tmp ≡ ok (s, tmp)
  unfolding scale
  scale_rests f s tmp h = rw h refl

  scale_goes_on :
      (f s tmp : ℕ)
      → tmp ≤ s
      → s < 2 ^ v
      → ltb s div ≡ true
      → scale v (suc f) div s tmp ≡ scale v f div (s * 2) (tmp * 2)
  unfolding scale
  scale_goes_on f s tmp le lt h = rw (scale_goes s lt, h, twice, tmp_twice) refl
    where
      twice : s * 2 % 2 ^ suc v ≡ s * 2
      twice = mod-eq_of_lt (omega (arith, lt, halve_up v))

      tmp_twice : tmp * 2 % 2 ^ suc v ≡ tmp * 2
      tmp_twice = mod-eq_of_lt (omega (arith, le, lt, halve_up v))

  abbrev pub Scaled : ℕ → ℕ → Type 0
  Scaled f k =
      (j : ℕ) × (scale v (suc f) div (s0 * 2 ^ k) (2 ^ k) ≡ ok (s0 * 2 ^ j, 2 ^ j))
      × (div < s0 * 2 ^ j * 2)
      × (j ≤ k + f)

  scale_at_top :
      (f k : ℕ) → s0 * 2 ^ k < 2 ^ suc v → div < 2 ^ suc v → 2 ^ v ≤ s0 * 2 ^ k → Scaled f k
  scale_at_top f k lt d le =
      (k, scale_rests f (s0 * 2 ^ k) (2 ^ k) test, omega (arith, d, halve_up v, le), omega arith)
    where
      test : ((s0 * 2 ^ k / 2 ^ v % 2 == 0) && ltb (s0 * 2 ^ k) div) ≡ false
      test = rw (scale_stops (s0 * 2 ^ k) lt le) refl

  scale_at_div : (f k : ℕ) → 0 < s0 → s0 * 2 ^ k < 2 ^ v → div ≤ s0 * 2 ^ k → Scaled f k
  scale_at_div f k z lt le = (
    k,
    scale_rests f (s0 * 2 ^ k) (2 ^ k) test,
    omega (arith, le, mul-pos z (power_pos k)),
    omega arith,
  )
    where
      test : ((s0 * 2 ^ k / 2 ^ v % 2 == 0) && ltb (s0 * 2 ^ k) div) ≡ false
      test = rw (scale_goes (s0 * 2 ^ k) lt) (ground (arith, le))

  one_less : (f k : ℕ) → 2 ^ v ≤ s0 * 2 ^ k * 2 ^ suc f → 2 ^ v ≤ s0 * 2 ^ suc k * 2 ^ f
  one_less f k h = grind (
    arith,
    h,
    doubled (s0 * 2 ^ k) f,
    ap (λ q. q * 2 ^ f) (doubled s0 k),
    mul_right_comm (s0 * 2 ^ k) 2 (2 ^ f),
  )

  tmp_below : (k : ℕ) → 0 < s0 → 2 ^ k ≤ s0 * 2 ^ k
  tmp_below k z =
      let one : 1 * 2 ^ k ≤ s0 * 2 ^ k = mul-le-mul_right (2 ^ k) z in omega (arith, one)

  next_round :
      (f k : ℕ) {r : Result (ℕ × ℕ)}
      → scale v f div (s0 * 2 ^ suc k) (2 ^ suc k) ≡ r
      → scale v f div (s0 * 2 ^ k * 2) (2 ^ k * 2) ≡ r
  next_round f k h = cc (h, doubled s0 k, halve_up k)

  pub scale_doubles :
      (f k : ℕ)
      → 0 < s0
      → s0 * 2 ^ k < 2 ^ suc v
      → 2 ^ v ≤ s0 * 2 ^ k * 2 ^ f
      → div < 2 ^ suc v
      → Scaled f k
  scale_doubles zero k z lt fuel d = scale_at_top zero k lt d (omega (arith, fuel))
  scale_doubles (suc f) k z lt fuel d = elim (Bool-cases (leb (2 ^ v) (s0 * 2 ^ k))) [
    | inl p ↦ scale_at_top (suc f) k lt d (leb→le (2 ^ v) (s0 * 2 ^ k) p)
    | inr p ↦ elim (Bool-cases (ltb (s0 * 2 ^ k) div)) [
      | inl q ↦
          let below : s0 * 2 ^ k < 2 ^ v = ground (arith, p) in
          let (j, runs, lt', le') =
            scale_doubles f (suc k) z (omega (arith, below, doubled s0 k, halve_up v))
              (one_less f k fuel) d in
          (
            j,
            scale_goes_on (suc f) (s0 * 2 ^ k) (2 ^ k) (tmp_below k z) below q
                ∙ next_round (suc f) k runs,
            lt',
            omega (arith, le'),
          )
      | inr q ↦ scale_at_div (suc f) k z (ground (arith, p)) (ground (arith, q))
    ]
  ]
