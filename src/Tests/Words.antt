-- ===== src/Tests/Words.antt =====
-- Multiplication and logarithm at given words.
use larceny.Base.{◌*◌, ◌^◌, ◌-◌, ◌%◌, ◌≡◌, refl, ◌↔◌, some, none, arith}
use larceny.Base.Int.{◌*ℤ◌}
use larceny.Multiply.{umul_32x32_to_64, neg64, mul_32x32_to_64}
use larceny.Multiply.Correct.{value, umul-exact, neg64-value}
use larceny.Multiply.Signed.{signed32, signed64, mul-exact}
use larceny.Remset.{halve_while_even, ilog2}
use larceny.Remset.Log2.{ilog2_iff}

-- the largest product, which needs both carries
umul_largest : umul_32x32_to_64 4294967295 4294967295 ≡ (4294967294, 1)
unfolding umul_32x32_to_64
umul_largest = refl

-- -2 times 3
mul_negative : mul_32x32_to_64 4294967294 3 ≡ (4294967295, 4294967290)
unfolding mul_32x32_to_64 umul_32x32_to_64 neg64
mul_negative = refl

ilog2_runs : (ilog2 8 ≡ some 4) × (ilog2 12 ≡ none) × (ilog2 0 ≡ none)
unfolding ilog2 halve_while_even
ilog2_runs = (refl, refl, refl)

umul-exact_example : value (umul_32x32_to_64 4294967295 4294967295) ≡ 4294967295 * 4294967295
umul-exact_example = umul-exact 4294967295 4294967295 (omega arith) (omega arith)

neg64-value_example : value (neg64 (1, 0)) ≡ (2 ^ 64 - value (1, 0)) % 2 ^ 64
neg64-value_example = neg64-value (1, 0) (omega arith) (omega arith)

mul-exact_example :
    signed64 (value (mul_32x32_to_64 4294967294 3)) ≡ signed32 4294967294 *ℤ signed32 3
mul-exact_example = mul-exact 4294967294 3 (omega arith) (omega arith)

ilog2_iff_example : (ilog2 8 ≡ some 4) ↔ (8 * 2 ≡ 2 ^ 4)
ilog2_iff_example = ilog2_iff 8 4
