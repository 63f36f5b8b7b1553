-- ===== src/GccLib.antt =====
-- gcc_lib.c: the divisions and shifts that the compiler calls on 32-bit machines.
pub mod Bits
pub mod Reduce
pub mod Scale
pub mod Division
pub mod Shifts
mod Tests
use bootstrap.Prelude.{
  ℕ, zero, suc, ◌+◌, ◌-◌, ◌*◌, ◌/◌, ◌%◌, ◌^◌, Bool, true, false, ◌&&◌, not, Result, ok, err, ◌>>=◌,
  out_of_fuel, bit_or, ltb, leb, ◌==◌, if◌then◌else◌,
}

-- `struct ullmoddiv_t` and `struct umoddiv_t`
pub record ModDiv : Type 0 where
  pub quotient : ℕ
  pub remainder : ℕ

-- The functions `ullmoddiv` and `umoddiv` are one text at two widths, 64 and 32 bits: here the
-- width is `suc v`.
module _ (v : ℕ) where
  -- The first loop: `while (!(s & (1 << v)) && s < div)`, which doubles `s` and `tmp`.
  unfoldable pub scale : ℕ → ℕ → ℕ → ℕ → Result (ℕ × ℕ)
  scale zero div s tmp = err out_of_fuel
  scale (suc fuel) div s tmp =
      let rest = scale fuel div (s * 2 % 2 ^ suc v) (tmp * 2 % 2 ^ suc v) in
      if (s / 2 ^ v % 2 == 0) && ltb s div then rest else ok (s, tmp)

  -- The second loop, which subtracts and halves.
  unfoldable pub reduce : ℕ → ℕ → ℕ → ℕ → ℕ → Result ModDiv
  reduce zero div s tmp i = err out_of_fuel
  reduce (suc fuel) div s tmp i =
      let div' = if leb s div then div - s else div in
      let i' = if leb s div then bit_or i tmp else i in
      let stop = ok (record { quotient = i'; remainder = div' }) in
      let rest = reduce fuel div' (s / 2) (tmp / 2) i' in
      if div' == 0 then stop else if tmp / 2 == 0 then stop else rest

  -- `ullmoddiv` and `umoddiv`. Each loop takes at most as many rounds as there are bits.
  unfoldable pub moddiv : ℕ → ℕ → Result ModDiv
  unfolding scale reduce
  moddiv div s =
      if s == 0
      then ok (record { quotient = 0; remainder = 0 })
      else if ltb div s
      then ok (record { quotient = 0; remainder = div })
      else (scale (suc v) div s 1 >>= λ scaled. reduce (suc v) div scaled.0 scaled.1 0)

unfoldable pub ullmoddiv : ℕ → ℕ → Result ModDiv
unfolding moddiv
ullmoddiv = moddiv 63

unfoldable pub umoddiv : ℕ → ℕ → Result ModDiv
unfolding moddiv
umoddiv = moddiv 31

-- `__umoddi3`, `__udivdi3`, and `__udivmoddi4` with what it stores through `r`.
unfoldable pub umoddi3 : ℕ → ℕ → Result ℕ
unfolding ullmoddiv
umoddi3 div s = ullmoddiv div s >>= λ md. ok md.remainder

unfoldable pub udivdi3 : ℕ → ℕ → Result ℕ
unfolding ullmoddiv
udivdi3 div s = ullmoddiv div s >>= λ md. ok md.quotient

unfoldable pub udivmoddi4 : ℕ → ℕ → Result (ℕ × ℕ)
unfolding ullmoddiv
udivmoddi4 div s = ullmoddiv div s >>= λ md. ok (md.quotient, md.remainder)

-- `__ctzsi2`: the tests of halves, quarters and so on of an `unsigned`.
abbrev pub ctz_step : ℕ → ℕ → ℕ × ℕ → ℕ × ℕ
ctz_step mask shift (val, c) = if val % mask == 0 then (val / 2 ^ shift, c + shift) else (val, c)

unfoldable pub ctzsi2 : ℕ → ℕ
ctzsi2 val =
    if val == 0
    then 32
    else (let (v, c) =
          ctz_step (2 ^ 2) 2
            (ctz_step (2 ^ 4) 4 (ctz_step (2 ^ 8) 8 (ctz_step (2 ^ 16) 16 (val, 0)))) in
        if v % 2 == 0 then c + 1 else c)

-- `__clzsi2`. A mask of the upper bits is zero if what lies above the lower bits is.
abbrev pub clz_step : ℕ → ℕ × ℕ → ℕ × ℕ
clz_step shift (val, c) =
    if val / 2 ^ (32 - shift) == 0 then (val * 2 ^ shift % 2 ^ 32, c + shift) else (val, c)

unfoldable pub clzsi2 : ℕ → ℕ
clzsi2 val =
    if val == 0
    then 32
    else (let (v, c) = clz_step 2 (clz_step 4 (clz_step 8 (clz_step 16 (val, 0)))) in
        if v / 2 ^ 31 == 0 then c + 1 else c)
