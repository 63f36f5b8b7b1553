-- ===== src/GccLib/Bits.antt =====
-- `|` of a number and a single bit below it: `i |= tmp` in the division.
use Prim.Native.Nat.{digits, bit_or-bitwise}
use native.Mathlib.Nat.{pow-suc, mul_assoc}
use bootstrap.Prelude.{
  ℕ, zero, suc, ◌+◌, ◌*◌, ◌/◌, ◌%◌, ◌^◌, ◌≤◌, ◌<◌, ◌≡◌, refl, max, bit_or, arith, sym, ◌∙◌, ap,
}

-- Fuel from the first operand up leaves the same number.
digits_enough :
    (n m a b : ℕ) → a ≤ n → a ≤ m → digits (λ y. y) max n a b ≡ digits (λ y. y) max m a b
digits_enough zero zero a b h k = refl
digits_enough zero (suc m) zero b h k = refl
digits_enough zero (suc m) (suc a) b h k = omega arith
digits_enough (suc n) zero zero b h k = refl
digits_enough (suc n) zero (suc a) b h k = omega arith
digits_enough (suc n) (suc m) zero b h k = refl
digits_enough (suc n) (suc m) (suc a) b h k =
    ap (λ d. d * 2 + max (suc a % 2) (b % 2))
      (digits_enough n m (suc a / 2) (b / 2) (omega arith) (omega arith))

pub or_zero : (b : ℕ) → bit_or 0 b ≡ b
or_zero b = bit_or-bitwise 0 b

pub or_step : (a b : ℕ) → bit_or a b ≡ bit_or (a / 2) (b / 2) * 2 + max (a % 2) (b % 2)
or_step zero b = omega (arith, or_zero b, or_zero (b / 2))
or_step (suc a) b =
    bit_or-bitwise (suc a) b
    ∙ ap (λ d. d * 2 + max (suc a % 2) (b % 2))
        (digits_enough a (suc a / 2) (suc a / 2) (b / 2) (omega arith) (omega arith)
          ∙ sym (bit_or-bitwise (suc a / 2) (b / 2)))

digits_alone : (n a : ℕ) → a ≤ n → digits (λ y. y) max n a 0 ≡ a
digits_alone zero a h = omega (arith, h)
digits_alone (suc n) zero h = refl
digits_alone (suc n) (suc a) h = omega (arith, digits_alone n (suc a / 2) (omega arith))

or_none : (a : ℕ) → bit_or a 0 ≡ a
or_none a = bit_or-bitwise a 0 ∙ digits_alone a a (omega arith)

pub halve : (a : ℕ) → a * 2 / 2 ≡ a
halve a = omega arith

pub halve_up : (k : ℕ) → 2 ^ suc k ≡ 2 ^ k * 2
halve_up k = pow-suc 2 k

or_twice : (a b : ℕ) → bit_or (a * 2) (b * 2) ≡ bit_or a b * 2
or_twice a b =
    let step : bit_or (a * 2) (b * 2) ≡ bit_or a b * 2 + max (a * 2 % 2) (b * 2 % 2) =
      rw (halve a, halve b) at (or_step (a * 2) (b * 2)) in
    omega (arith, step)

or_one : (a : ℕ) → bit_or (a * 2) 1 ≡ a * 2 + 1
or_one a =
    let step : bit_or (a * 2) 1 ≡ bit_or a (1 / 2) * 2 + max (a * 2 % 2) (1 % 2) =
      rw (halve a) at (or_step (a * 2) 1) in
    omega (arith, step, or_none a)

-- A bit below all those of the number is added.
pub or_bit : (k x : ℕ) → bit_or (x * 2 ^ suc k) (2 ^ k) ≡ x * 2 ^ suc k + 2 ^ k
or_bit zero x = or_one x
or_bit (suc k) x =
    let e : x * 2 ^ suc (suc k) ≡ x * 2 ^ suc k * 2 =
      ap (λ p. x * p) (halve_up (suc k)) ∙ sym (mul_assoc x (2 ^ suc k) 2) in
    let step : bit_or (x * 2 ^ suc (suc k)) (2 ^ suc k) ≡ bit_or (x * 2 ^ suc k) (2 ^ k) * 2 =
      ap (λ z. bit_or z (2 ^ suc k)) e
      ∙ ap (bit_or (x * 2 ^ suc k * 2)) (halve_up k)
      ∙ or_twice (x * 2 ^ suc k) (2 ^ k) in
    omega (arith, step, e, halve_up k, or_bit k x)

-- Bits below all those of a number are added.
pub or_below : (k x y : ℕ) → y < 2 ^ k → bit_or y (x * 2 ^ k) ≡ y + x * 2 ^ k
or_below zero x zero h = omega (arith, or_zero (x * 2 ^ 0))
or_below zero x (suc y) h = absurd (omega arith)
or_below (suc k) x y h =
    let e : x * 2 ^ suc k ≡ x * 2 ^ k * 2 =
      ap (λ p. x * p) (halve_up k) ∙ sym (mul_assoc x (2 ^ k) 2) in
    let half : x * 2 ^ suc k / 2 ≡ x * 2 ^ k = omega (arith, e) in
    let low : bit_or (y / 2) (x * 2 ^ suc k / 2) ≡ y / 2 + x * 2 ^ k =
      ap (bit_or (y / 2)) half ∙ or_below k x (y / 2) (omega (arith, halve_up k)) in
    omega (arith, or_step y (x * 2 ^ suc k), low, e)

pub or_above : (k x y : ℕ) → y < 2 ^ k → bit_or (x * 2 ^ k) y ≡ x * 2 ^ k + y
or_above zero x zero h = omega (arith, or_none (x * 2 ^ 0))
or_above zero x (suc y) h = absurd (omega arith)
or_above (suc k) x y h =
    let e : x * 2 ^ suc k ≡ x * 2 ^ k * 2 =
      ap (λ p. x * p) (halve_up k) ∙ sym (mul_assoc x (2 ^ k) 2) in
    let half : x * 2 ^ suc k / 2 ≡ x * 2 ^ k = omega (arith, e) in
    let low : bit_or (x * 2 ^ suc k / 2) (y / 2) ≡ x * 2 ^ k + y / 2 =
      ap (λ z. bit_or z (y / 2)) half ∙ or_above k x (y / 2) (omega (arith, halve_up k)) in
    omega (arith, or_step (x * 2 ^ suc k) y, low, e)
