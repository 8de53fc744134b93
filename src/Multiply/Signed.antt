-- ===== src/Multiply/Signed.antt =====
-- The signed product is exact.
use larceny.Base.{
  ℕ, zero, suc, ◌-◌, ◌*◌, ◌%◌, ◌^◌, ◌≡◌, sym, ◌<◌, ◌≤◌, arith, true, false, ltb, if◌then◌else◌,
  Bool-cases, inl, inr,
}
use larceny.Base.Int.{ℤ, pos, negsuc, sub_ℕ, ◌*ℤ◌}
use larceny.Multiply.{umul_32x32_to_64, neg64, mul_32x32_to_64, is_negative, negated}
use larceny.Multiply.Correct.{value, umul-exact, umul-lt, neg64-value}

-- the integer that a word stands for as an `int`, and a pair of words as a 64-bit one
abbrev pub signed32 : ℕ → ℤ
signed32 w = if ltb w (2 ^ 31) then pos w else negsuc (2 ^ 32 - w - 1)

abbrev pub signed64 : ℕ → ℤ
signed64 w = if ltb w (2 ^ 63) then pos w else negsuc (2 ^ 64 - w - 1)

small_product : (a b : ℕ) → a ≤ 2147483648 → b ≤ 2147483648 → a * b ≤ 4611686018427387904
small_product a b h k = grind arith

-- A word whose sign bit is set stands for minus its negation.
signed32_negative : (a : ℕ) → a < 2 ^ 32 → is_negative a ≡ true → signed32 a ≡ sub_ℕ 0 (negated a)
signed32_negative a h n = ground arith

signed32_positive : (a : ℕ) → is_negative a ≡ false → signed32 a ≡ pos a
signed32_positive a n = ground arith

negated-le : (a : ℕ) → is_negative a ≡ true → negated a ≤ 2147483648
negated-le a h = ground arith

signed64_small : (p : ℕ) → p ≤ 4611686018427387904 → signed64 p ≡ pos p
signed64_small p h = ground arith

signed64_neg : (p : ℕ) → p ≤ 4611686018427387904 → signed64 ((2 ^ 64 - p) % 2 ^ 64) ≡ sub_ℕ 0 p
signed64_neg p h = ground arith

-- multiplication of integers given by sign and size
neg_mul_neg : (m n : ℕ) → sub_ℕ 0 m *ℤ sub_ℕ 0 n ≡ pos (m * n)
unfolding ◌*ℤ◌
neg_mul_neg zero zero = ground arith
neg_mul_neg zero (suc n) = ground arith
neg_mul_neg (suc m) zero = ground arith
neg_mul_neg (suc m) (suc n) = ground arith

neg_mul_pos : (m n : ℕ) → sub_ℕ 0 m *ℤ pos n ≡ sub_ℕ 0 (m * n)
unfolding ◌*ℤ◌
neg_mul_pos zero n = ground arith
neg_mul_pos (suc m) n = ground arith

pos_mul_neg : (m n : ℕ) → pos m *ℤ sub_ℕ 0 n ≡ sub_ℕ 0 (m * n)
unfolding ◌*ℤ◌
pos_mul_neg m zero = ground arith
pos_mul_neg m (suc n) = ground arith

pos_mul_pos : (m n : ℕ) → pos m *ℤ pos n ≡ pos (m * n)
unfolding ◌*ℤ◌
pos_mul_pos m n = ground arith

exact :
    (a b : ℕ)
    → a ≤ 2147483648
    → b ≤ 2147483648
    → (value (umul_32x32_to_64 a b) ≡ a * b) × (a * b ≤ 4611686018427387904)
exact a b h k = (umul-exact a b (omega arith) (omega arith), small_product a b h k)

neg_exact :
    (a b : ℕ)
    → a ≤ 2147483648
    → b ≤ 2147483648
    → signed64 (value (neg64 (umul_32x32_to_64 a b))) ≡ sub_ℕ 0 (a * b)
neg_exact a b h k =
    let lt = umul-lt a b in
    let (e, small) = exact a b h k in
    rw (neg64-value (umul_32x32_to_64 a b) lt.0 lt.1, e) (signed64_neg (a * b) small)

-- The two result words of a signed multiplication, read as a 64-bit integer in two's complement,
-- are the exact product of the two words, read as 32-bit integers.
pub mul-exact :
    (a b : ℕ)
    → a < 2 ^ 32
    → b < 2 ^ 32
    → signed64 (value (mul_32x32_to_64 a b)) ≡ signed32 a *ℤ signed32 b
unfolding mul_32x32_to_64
mul-exact a b ha hb = elim (Bool-cases (is_negative a)) [
  | inl na ↦ elim (Bool-cases (is_negative b)) [
    | inl nb ↦
        let (e, small) = exact (negated a) (negated b) (negated-le a na) (negated-le b nb) in
        rw (na, nb, e, signed64_small _ small, signed32_negative a ha na, signed32_negative b hb nb)
          (sym (neg_mul_neg (negated a) (negated b)))
    | inr nb ↦
        rw
          (
            na,
            nb,
            neg_exact (negated a) b (negated-le a na) (ground arith),
            signed32_negative a ha na,
            signed32_positive b nb,
          )
          (sym (neg_mul_pos (negated a) b))
  ]
  | inr na ↦ elim (Bool-cases (is_negative b)) [
    | inl nb ↦
        rw
          (
            na,
            nb,
            neg_exact a (negated b) (ground arith) (negated-le b nb),
            signed32_positive a na,
            signed32_negative b hb nb,
          )
          (sym (pos_mul_neg a (negated b)))
    | inr nb ↦
        let (e, small) = exact a b (ground arith) (ground arith) in
        rw (na, nb, e, signed64_small _ small, signed32_positive a na, signed32_positive b nb)
          (sym (pos_mul_pos a b))
  ]
]
