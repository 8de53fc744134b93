-- ===== src/Multiply.antt =====
-- Extended-precision multiplication: src/Rts/Shared/multiply.c. A word is a number below 2^32, and
-- every word operation is written with its wrap-around. The two results `*hi` and `*lo` are a pair.
pub mod Correct
pub mod Signed
use larceny.Base.{ℕ, ◌+◌, ◌-◌, ◌*◌, ◌/◌, ◌%◌, ◌^◌, Bool, ltb, leb, ◌==◌, if◌then◌else◌}

-- `a` and `b` are cut in halves; the carries out of `*lo` are counted by comparisons.
unfoldable pub umul_32x32_to_64 : ℕ → ℕ → ℕ × ℕ
umul_32x32_to_64 a b =
    let a1 = a % 2 ^ 16 in
    let a2 = a / 2 ^ 16 in
    let b1 = b % 2 ^ 16 in
    let b2 = b / 2 ^ 16 in
    let r1 = a1 * b1 % 2 ^ 32 in
    let r2 = a1 * b2 % 2 ^ 32 in
    let r3 = a2 * b1 % 2 ^ 32 in
    let r4 = a2 * b2 % 2 ^ 32 in
    let x = (r1 + r2 * 2 ^ 16 % 2 ^ 32) % 2 ^ 32 in
    let c1 : ℕ = if ltb x r1 then 1 else 0 in
    let y = (x + r3 * 2 ^ 16 % 2 ^ 32) % 2 ^ 32 in
    let carry = if ltb y x then c1 + 1 else c1 in
    ((r4 + r2 / 2 ^ 16 + r3 / 2 ^ 16 + carry) % 2 ^ 32, y)

-- `~w` is 2^32 - 1 - w.
unfoldable pub neg64 : ℕ × ℕ → ℕ × ℕ
neg64 (hi, lo) =
    let y = (2 ^ 32 - 1 - lo + 1) % 2 ^ 32 in
    let carry : ℕ = if y == 0 then 1 else 0 in ((2 ^ 32 - 1 - hi + carry) % 2 ^ 32, y)

-- `(s_word)w < 0`
abbrev pub is_negative : ℕ → Bool
is_negative w = leb (2 ^ 31) w

-- `(word)-(s_word)w`
abbrev pub negated : ℕ → ℕ
negated w = (2 ^ 32 - w) % 2 ^ 32

unfoldable pub mul_32x32_to_64 : ℕ → ℕ → ℕ × ℕ
mul_32x32_to_64 a b =
    if is_negative a
    then if is_negative b
      then umul_32x32_to_64 (negated a) (negated b)
      else neg64 (umul_32x32_to_64 (negated a) b)
    else if is_negative b
    then neg64 (umul_32x32_to_64 a (negated b))
    else umul_32x32_to_64 a b
