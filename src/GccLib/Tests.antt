-- ===== src/GccLib/Tests.antt =====
-- Runs of the divisions and the bit counts, and the theorem about the divisions at numbers.
use bootstrap.GccLib.Shifts.{ashldi3, ashrdi3, ffsdi2, first_set, ashldi3_multiplies}
use bootstrap.Prelude.{◌*◌, ◌%◌, ◌^◌, ◌≡◌, refl, ok, arith}
use bootstrap.GccLib.{moddiv, scale, reduce, ctzsi2, clzsi2, ullmoddiv, udivmoddi4}
use bootstrap.GccLib.Division.{moddiv_divides}

udivmoddi4_runs : udivmoddi4 1_000_000 0x1234 ≡ ok (214, 2760)
unfolding udivmoddi4 ullmoddiv moddiv scale reduce
udivmoddi4_runs = refl

ctzsi2_runs : ctzsi2 0x0050_0000 ≡ 20
unfolding ctzsi2
ctzsi2_runs = refl

clzsi2_runs : clzsi2 0x0050_0000 ≡ 9
unfolding clzsi2
clzsi2_runs = refl

moddiv_divides_example : moddiv 31 1000 7 ≡ ok (record { quotient = 142; remainder = 6 })
moddiv_divides_example = moddiv_divides 31 1000 7 (omega arith) (omega arith) (omega arith)

ashldi3_multiplies_example :
    ashldi3 0x0012_3456_789a_bcde 12 ≡ 0x0012_3456_789a_bcde * 2 ^ 12 % 2 ^ 64
ashldi3_multiplies_example = ashldi3_multiplies 0x0012_3456_789a_bcde 12 (omega arith) (omega arith)

ashrdi3_runs : ashrdi3 0xffff_ffff_0000_0000 36 ≡ 0xffff_ffff_ffff_ffff
unfolding ashrdi3
ashrdi3_runs = refl

ffsdi2_runs : ffsdi2 0x0001_0000_0000 ≡ 33
unfolding ffsdi2 first_set
ffsdi2_runs = refl
