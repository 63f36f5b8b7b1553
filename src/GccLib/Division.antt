-- ===== src/GccLib/Division.antt =====
-- `ullmoddiv` and `umoddiv` divide.
use native.Mathlib.Nat.{
  mul_comm, mul-le-mul_right, add-mul, div-eq_of_lt, div-eq_of_lt-le, div-add-mod, mod-eq_of_lt,
}
use bootstrap.Prelude.{
  ℕ, suc, ◌*◌, ◌/◌, ◌%◌, ◌^◌, ◌≤◌, ◌<◌, ◌≡◌, refl, inl, inr, arith, sym, ◌∙◌, ap, ltb, ◌==◌, true,
  false, Bool-cases, ltb→lt, ◌>>=◌, ok, Result,
}
use bootstrap.GccLib.{ModDiv, scale, reduce, moddiv}
use bootstrap.GccLib.Reduce.{Divided, reduce_halves}
use bootstrap.GccLib.Scale.{scale_doubles}

-- The quotient and the remainder are told by what they satisfy.
Divided-unique :
    (div s : ℕ) (md : ModDiv)
    → Divided div s md
    → md ≡ record { quotient = div / s; remainder = div % s }
unfolding Divided
Divided-unique div s md (e, lt) = cc (quotients, remainders)
  where
    quotients : md.quotient ≡ div / s
    quotients =
        sym (div-eq_of_lt-le s (omega (arith, e)) (omega (arith, add-mul md.quotient 1 s, e, lt)))

    remainders : md.remainder ≡ div % s
    remainders =
        omega (arith, e, div-add-mod div s, ap (λ q. q * s) quotients, mul_comm s (div / s))

moddiv_small :
    (v div s : ℕ)
    → div < s
    → moddiv v div s ≡ ok (record { quotient = div / s; remainder = div % s })
unfolding moddiv
moddiv_small v div s lt = rw (some, small, div-eq_of_lt lt, mod-eq_of_lt lt) refl
  where
    some : (s == 0) ≡ false
    some = ground (arith, lt)

    small : ltb div s ≡ true
    small = ground (arith, lt)

moddiv_loops :
    (v div s : ℕ)
    → 0 < s
    → s ≤ div
    → moddiv v div s
      ≡ (scale v (suc v) div s 1 >>= λ scaled. reduce v (suc v) div scaled.0 scaled.1 0)
unfolding moddiv
moddiv_loops v div s z le = rw (some, large) refl
  where
    some : (s == 0) ≡ false
    some = ground (arith, z)

    large : ltb div s ≡ false
    large = ground (arith, le)

none_yet : (p : ℕ) → 0 ≡ 0 * p
none_yet p = omega arith

moddiv_large :
    (v div s : ℕ)
    → 0 < s
    → s ≤ div
    → s < 2 ^ suc v
    → div < 2 ^ suc v
    → moddiv v div s ≡ ok (record { quotient = div / s; remainder = div % s })
moddiv_large v div s z le ls ld =
    let (j, scaled, lt, few) = scale_doubles v div s v 0 z (omega (arith, ls)) fuel ld in
    let (md, reduced, divided) =
      reduce_halves v div s v div j 0 z (omega (arith, few)) lt (omega arith) in
    moddiv_loops v div s z le
    ∙ ap (λ r. r >>= λ scaled. reduce v (suc v) div scaled.0 scaled.1 0) (first scaled)
    ∙ ap (reduce v (suc v) div (s * 2 ^ j) (2 ^ j)) (none_yet (2 ^ suc j))
    ∙ reduced
    ∙ ap ok (Divided-unique div s md divided)
  where
    fuel : 2 ^ v ≤ s * 2 ^ 0 * 2 ^ v
    fuel = let one : 1 * 2 ^ v ≤ s * 2 ^ v = mul-le-mul_right (2 ^ v) z in omega (arith, one)

    first :
        {r : Result (ℕ × ℕ)}
        → scale v (suc v) div (s * 2 ^ 0) (2 ^ 0) ≡ r
        → scale v (suc v) div s 1 ≡ r
    first h = ap (λ t. scale v (suc v) div t 1) (omega arith) ∙ h

-- For a divisor and a dividend that are words of `suc v` bits, with the divisor not zero, the
-- routine that `ullmoddiv` (64 bits) and `umoddiv` (32 bits) run ends within its fuel and returns
-- the quotient and the remainder.
pub moddiv_divides :
    (v div s : ℕ)
    → 0 < s
    → s < 2 ^ suc v
    → div < 2 ^ suc v
    → moddiv v div s ≡ ok (record { quotient = div / s; remainder = div % s })
moddiv_divides v div s z ls ld = elim (Bool-cases (ltb div s)) [
  | inl h ↦ moddiv_small v div s (ltb→lt div s h)
  | inr h ↦ moddiv_large v div s z (ground (arith, h)) ls ld
]
