-- ===== src/Multiply/Correct.antt =====
-- The two products are exact.
use larceny.Base.{
  ℕ, ◌+◌, ◌-◌, ◌*◌, ◌/◌, ◌%◌, ◌^◌, ◌≡◌, sym, ◌∙◌, ◌<◌, ◌≤◌, arith, ltb, if◌then◌else◌,
}
use larceny.Multiply.{umul_32x32_to_64, neg64}

abbrev pub value : ℕ × ℕ → ℕ
value r = r.0 * 2 ^ 32 + r.1

half_product : (x y : ℕ) → x < 65536 → y < 65536 → x * y ≤ 65535 * 65535
half_product x y h k = grind arith

-- the carries, over any four partial products
sum_halves :
    (r1 r2 r3 r4 : ℕ)
    → r1 ≤ 4294836225
    → r2 ≤ 4294836225
    → r3 ≤ 4294836225
    → r4 * 2 ^ 32 + (r2 + r3) * 2 ^ 16 + r1 < 2 ^ 64
    → let x = (r1 + r2 * 2 ^ 16 % 2 ^ 32) % 2 ^ 32 in
      let c1 : ℕ = if ltb x r1 then 1 else 0 in
      let y = (x + r3 * 2 ^ 16 % 2 ^ 32) % 2 ^ 32 in
      let carry = if ltb y x then c1 + 1 else c1 in
      ((r4 + r2 / 2 ^ 16 + r3 / 2 ^ 16 + carry) % 2 ^ 32) * 2 ^ 32 + y
      ≡ r4 * 2 ^ 32 + (r2 + r3) * 2 ^ 16 + r1
sum_halves r1 r2 r3 r4 h1 h2 h3 h = ground arith

product-lt : (a b : ℕ) → a < 2 ^ 32 → b < 2 ^ 32 → a * b < 2 ^ 64
product-lt a b h k = grind arith

expand :
    (a1 a2 b1 b2 : ℕ)
    → (a2 * 65536 + a1) * (b2 * 65536 + b1)
      ≡ a2 * b2 * 4294967296 + (a1 * b2 + a2 * b1) * 65536 + a1 * b1
expand a1 a2 b1 b2 = omega arith

-- The two result words of an unsigned multiplication are the exact product of two words.
pub umul-exact : (a b : ℕ) → a < 2 ^ 32 → b < 2 ^ 32 → value (umul_32x32_to_64 a b) ≡ a * b
unfolding umul_32x32_to_64
umul-exact a b ha hb =
    let a1 = a % 65536 in
    let a2 = a / 65536 in
    let b1 = b % 65536 in
    let b2 = b / 65536 in
    let h1 = half_product a1 b1 (omega arith) (omega arith) in
    let h2 = half_product a1 b2 (omega arith) (omega arith) in
    let h3 = half_product a2 b1 (omega arith) (omega arith) in
    let h4 = half_product a2 b2 (omega arith) (omega arith) in
    let f1 : a1 * b1 % 2 ^ 32 ≡ a1 * b1 = omega arith in
    let f2 : a1 * b2 % 2 ^ 32 ≡ a1 * b2 = omega arith in
    let f3 : a2 * b1 % 2 ^ 32 ≡ a2 * b1 = omega arith in
    let f4 : a2 * b2 % 2 ^ 32 ≡ a2 * b2 = omega arith in
    let split_a : a2 * 65536 + a1 ≡ a = omega arith in
    let split_b : b2 * 65536 + b1 ≡ b = omega arith in
    let total = rw (split_a, split_b) at (expand a1 a2 b1 b2) in
    rw (f1, f2, f3, f4)
      (sum_halves (a1 * b1) (a1 * b2) (a2 * b1) (a2 * b2) (omega arith) (omega arith) (omega arith)
          (omega (arith, total, product-lt a b ha hb))
        ∙ sym total)

pub umul-lt : (a b : ℕ) → ((umul_32x32_to_64 a b).0 < 2 ^ 32) × ((umul_32x32_to_64 a b).1 < 2 ^ 32)
unfolding umul_32x32_to_64
umul-lt a b = (omega arith, omega arith)

-- Negation of a pair of words is negation modulo 2^64.
pub neg64-value :
    (r : ℕ × ℕ) → r.0 < 2 ^ 32 → r.1 < 2 ^ 32 → value (neg64 r) ≡ (2 ^ 64 - value r) % 2 ^ 64
unfolding neg64
neg64-value r h k = ground arith
