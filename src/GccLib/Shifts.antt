-- ===== src/GccLib/Shifts.antt =====
-- `__ashldi3`, `__ashrdi3`, `__ffssi2` and `__ffsdi2` of gcc_lib.c.
use native.Mathlib.Nat.{
  mul-div-mul_right, pow-suc, mul_assoc, mul_right_comm, div-add-mod, add-mul, mul-le-mul_right,
  mod-lt, suc-mul,
}
use bootstrap.Prelude.{
  ℕ, zero, suc, ◌+◌, ◌-◌, ◌*◌, ◌/◌, ◌%◌, ◌^◌, ◌≤◌, ◌<◌, ◌≡◌, sym, ap, ◌∙◌, inl, inr, Bool-cases,
  ltb, leb, leb→le, ==→eq, ◌==◌, if◌then◌else◌, bit_or, arith, power_pos,
}
use bootstrap.GccLib.Bits.{or_above}

-- `union llval_t`: the two halves of a 64-bit value, each as a number below 2 ^ 32.
pub record Halves : Type 0 where
  pub low : ℕ
  pub high : ℕ

abbrev pub halves : ℕ → Halves
halves val = record { low = val % 2 ^ 32; high = val / 2 ^ 32 % 2 ^ 32 }

abbrev pub whole : Halves → ℕ
whole v = v.high * 2 ^ 32 + v.low

-- `int >> n`
abbrev pub shift_signed : ℕ → ℕ → ℕ
shift_signed x n = if ltb x (2 ^ 31) then x / 2 ^ n else x / 2 ^ n + (2 ^ 32 - 2 ^ (32 - n))

-- The branches of `__ashldi3` and `__ashrdi3` for fewer than 32 bits.
abbrev pub shift_left_both : Halves → ℕ → Halves
shift_left_both v bits = record {
  high = bit_or (v.high * 2 ^ bits % 2 ^ 32) (v.low / 2 ^ (32 - bits));
  low = v.low * 2 ^ bits % 2 ^ 32;
}

abbrev pub shift_right_both : Halves → ℕ → Halves
shift_right_both v bits = record {
  low = bit_or (v.high * 2 ^ (32 - bits) % 2 ^ 32) (v.low / 2 ^ bits);
  high = shift_signed v.high bits;
}

-- `__ashldi3`
unfoldable pub ashldi3 : ℕ → ℕ → ℕ
ashldi3 val bits =
    let v = halves val in
    let far = whole (record { high = v.low * 2 ^ (bits - 32) % 2 ^ 32; low = 0 }) in
    if leb 32 bits then far else if bits == 0 then whole v else whole (shift_left_both v bits)

-- `__ashrdi3`
unfoldable pub ashrdi3 : ℕ → ℕ → ℕ
ashrdi3 val bits =
    let v = halves val in
    let far =
      whole (record { low = shift_signed v.high (bits - 32); high = shift_signed v.high 31 }) in
    if leb 32 bits then far else if bits == 0 then whole v else whole (shift_right_both v bits)

-- The loop of `__ffssi2` and `__ffsdi2`, with so many rounds left. The sign that `>>=` shifts in
-- is not reached.
unfoldable pub first_set : ℕ → ℕ → ℕ → ℕ
first_set zero i val = 0
first_set (suc n) i val =
    let rest = first_set n (i + 1) (val / 2) in if val % 2 == 1 then i else rest

unfoldable pub ffssi2 : ℕ → ℕ
unfolding first_set
ffssi2 val = first_set 32 1 val

unfoldable pub ffsdi2 : ℕ → ℕ
unfolding first_set
ffsdi2 val = first_set 64 1 val

power_sum : (a b : ℕ) → 2 ^ (a + b) ≡ 2 ^ a * 2 ^ b
power_sum a zero = let e : a + 0 ≡ a = omega arith in ap (λ k. 2 ^ k) e ∙ omega arith
power_sum a (suc b) =
    let e : 2 ^ (a + suc b) ≡ 2 ^ suc (a + b) = ap (λ k. 2 ^ k) (omega arith) in
    e
    ∙ pow-suc 2 (a + b)
    ∙ ap (λ p. p * 2) (power_sum a b)
    ∙ mul_assoc (2 ^ a) (2 ^ b) 2
    ∙ ap (λ p. 2 ^ a * p) (sym (pow-suc 2 b))

split_power : (b : ℕ) → b ≤ 32 → 2 ^ (32 - b) * 2 ^ b ≡ 2 ^ 32
split_power b h =
    let e : 32 - b + b ≡ 32 = omega (arith, h) in sym (power_sum (32 - b) b) ∙ ap (λ k. 2 ^ k) e

-- What a shift by less than a half does to a half.
carry : (b x : ℕ) → b ≤ 32 → x * 2 ^ b / 2 ^ 32 ≡ x / 2 ^ (32 - b)
carry b x h =
    ap (λ m. x * 2 ^ b / m) (sym (split_power b h))
    ∙ mul-div-mul_right x (2 ^ (32 - b)) (power_pos b)

-- The high half leaves room below it for the carry.
room :
    (b x : ℕ) → b ≤ 32 → (q : ℕ) × (x * 2 ^ b % 2 ^ 32 ≡ q * 2 ^ b) × (q * 2 ^ b + 2 ^ b ≤ 2 ^ 32)
room b x h =
    let p = 2 ^ b in
    let r = 2 ^ (32 - b) in
    let q = x % r in
    let parts : x * p ≡ r * (x / r) * p + q * p =
      ap (λ z. z * p) (sym (div-add-mod x r)) ∙ add-mul (r * (x / r)) q p in
    let up : r * (x / r) * p ≡ 2 ^ 32 * (x / r) =
      mul_right_comm r (x / r) p ∙ ap (λ m. m * (x / r)) (split_power b h) in
    let less : (suc q) * p ≤ r * p = mul-le-mul_right p (mod-lt x (power_pos (32 - b))) in
    (q, omega (arith, parts, up, carry b x h), omega (arith, less, split_power b h, suc-mul q p))

-- A value times a power of two, in its halves.
halves_times : (val p : ℕ) → val * p ≡ val / 2 ^ 32 * p * 2 ^ 32 + val % 2 ^ 32 * p
halves_times val p =
    let e : val ≡ val / 2 ^ 32 * 2 ^ 32 + val % 2 ^ 32 = omega arith in
    ap (λ v. v * p) e
    ∙ add-mul (val / 2 ^ 32 * 2 ^ 32) (val % 2 ^ 32) p
    ∙ ap (λ z. z + val % 2 ^ 32 * p) (mul_right_comm (val / 2 ^ 32) (2 ^ 32) p)

shift_far :
    (val bits : ℕ)
    → 32 ≤ bits
    → val % 2 ^ 32 * 2 ^ (bits - 32) % 2 ^ 32 * 2 ^ 32 + 0 ≡ val * 2 ^ bits % 2 ^ 64
shift_far val bits h =
    let p = 2 ^ (bits - 32) in
    let b : bits ≡ bits - 32 + 32 = omega (arith, h) in
    let power : val * 2 ^ bits ≡ val * p * 2 ^ 32 =
      ap (λ k. val * 2 ^ k) b
      ∙ ap (λ k. val * k) (power_sum (bits - 32) 32)
      ∙ sym (mul_assoc val p (2 ^ 32)) in
    omega (arith, power, halves_times val p)

shift_near :
    (val bits : ℕ)
    → val < 2 ^ 64
    → bits < 32
    → whole (shift_left_both (halves val) bits) ≡ val * 2 ^ bits % 2 ^ 64
shift_near val bits h k =
    let p = 2 ^ bits in
    let high = val / 2 ^ 32 % 2 ^ 32 in
    let low = val % 2 ^ 32 in
    let same : high ≡ val / 2 ^ 32 = omega (arith, h) in
    let times : val * p ≡ high * p * 2 ^ 32 + low * p =
      halves_times val p ∙ ap (λ z. z * p * 2 ^ 32 + low * p) (sym same) in
    let (q, multiple, fits) = room bits high (omega (arith, k)) in
    let less : (suc low) * p ≤ 2 ^ 32 * p = mul-le-mul_right p (omega arith) in
    let small : low / 2 ^ (32 - bits) < p =
      omega (arith, carry bits low (omega (arith, k)), less, suc-mul low p, power_pos bits) in
    let joined : bit_or (high * p % 2 ^ 32) (low / 2 ^ (32 - bits))
        ≡ q * p + low / 2 ^ (32 - bits) =
      ap (λ z. bit_or z (low / 2 ^ (32 - bits))) multiple
      ∙ or_above bits q (low / 2 ^ (32 - bits)) small in
    omega (arith, joined, multiple, fits, times, small, carry bits low (omega (arith, k)))

-- `__ashldi3` is multiplication by a power of two, in 64 bits, for every number of bits below 64.
pub ashldi3_multiplies :
    (val bits : ℕ) → val < 2 ^ 64 → bits < 64 → ashldi3 val bits ≡ val * 2 ^ bits % 2 ^ 64
unfolding ashldi3
ashldi3_multiplies val bits h k = elim (Bool-cases (leb 32 bits)) [
  | inl far ↦ rw (far) (shift_far val bits (leb→le 32 bits far))
  | inr near ↦ elim (Bool-cases (bits == 0)) [
    | inl z ↦ rw (near, z) (still (==→eq bits 0 z))
    | inr nz ↦ rw (near, nz) (shift_near val bits h (ground arith))
  ]
]
  where
    still : bits ≡ 0 → whole (halves val) ≡ val * 2 ^ bits % 2 ^ 64
    still z =
        let e : 2 ^ bits ≡ 1 = ap (λ k. 2 ^ k) z in
        let t : whole (halves val) ≡ val * 1 % 2 ^ 64 = omega (arith, h) in
        t ∙ ap (λ p. val * p % 2 ^ 64) (sym e)
