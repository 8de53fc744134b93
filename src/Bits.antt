-- ===== src/Bits.antt =====
-- The bits of a machine word as the collector's bitmaps use them (src/Rts/Sys/extbmp.c): the
-- test `w & (1 << j)`, the set `w | (1 << j)` and the clear `w & ~(1 << j)` of one bit.
mod Step
use Step.{bit_or_step, bit_and_step}
use native.Mathlib.Nat.{pow-suc, one-le-pow}
use larceny.Base.{
  ℕ, zero, suc, ◌+◌, ◌-◌, ◌*◌, ◌/◌, ◌%◌, ◌^◌, ◌≤◌, ◌<◌, min, max, bit_and, bit_or, ◌≡◌, refl, sym,
  ap, ◌∙◌, Bool, true, false, not, ◌&&◌, ◌||◌, inl, inr, arith, ◌==◌, ltb, Bool-cases,
}

-- bit `j` of `w`, by the digits of `w`
unfoldable pub bit : ℕ → ℕ → Bool
bit w zero = w % 2 == 1
bit w (suc j) = bit (w / 2) j

pub bit-zero : (j : ℕ) → bit 0 j ≡ false
unfolding bit
bit-zero zero = refl
bit-zero (suc j) = bit-zero j

pub bit-bit_or : (a b j : ℕ) → bit (bit_or a b) j ≡ (bit a j || bit b j)
unfolding bit
bit-bit_or a b zero = ground (arith, bit_or_step a b)
bit-bit_or a b (suc j) = rw (halves a b) (bit-bit_or (a / 2) (b / 2) j)
  where
    halves : (a b : ℕ) → bit_or a b / 2 ≡ bit_or (a / 2) (b / 2)
    halves a b = omega (arith, bit_or_step a b)

half-bit_and : (a b : ℕ) → bit_and a b / 2 ≡ bit_and (a / 2) (b / 2)
half-bit_and a b = omega (arith, bit_and_step a b)

pub bit-bit_and : (a b j : ℕ) → bit (bit_and a b) j ≡ (bit a j && bit b j)
unfolding bit
bit-bit_and a b zero = ground (arith, bit_and_step a b)
bit-bit_and a b (suc j) = rw (half-bit_and a b) (bit-bit_and (a / 2) (b / 2) j)

half-pow : (j : ℕ) → 2 ^ suc j / 2 ≡ 2 ^ j
half-pow j = omega (arith, pow-suc 2 j)

pub bit-pow : (i j : ℕ) → bit (2 ^ i) j ≡ (j == i)
unfolding bit
bit-pow zero zero = refl
bit-pow zero (suc j) = bit-zero j ∙ ground arith
bit-pow (suc i) zero = ground (arith, pow-suc 2 i)
bit-pow (suc i) (suc j) = rw (half-pow i) (bit-pow i j ∙ ground arith)

pow_below : (n i : ℕ) → i < n → 2 ^ i < 2 ^ n
pow_below zero i h = absurd (omega arith)
pow_below (suc n) zero h = omega (arith, pow-suc 2 n, one-le-pow n 2)
pow_below (suc n) (suc i) h = omega (arith, pow-suc 2 n, pow-suc 2 i, pow_below n i (omega arith))

bit_ones : (n j : ℕ) → j < n → bit (2 ^ n - 1) j ≡ true
unfolding bit
bit_ones zero j h = absurd (omega arith)
bit_ones (suc n) zero h = ground (arith, pow-suc 2 n, one-le-pow n 2)
bit_ones (suc n) (suc j) h = rw (half n) (bit_ones n j (omega arith))
  where
    half : (n : ℕ) → (2 ^ suc n - 1) / 2 ≡ 2 ^ n - 1
    half n = omega (arith, pow-suc 2 n, one-le-pow n 2)

-- the complement `~(1 << i)` in a word of `n` bits
bit_complement : (n i j : ℕ) → i < n → j < n → bit (2 ^ n - 1 - 2 ^ i) j ≡ not (j == i)
unfolding bit
bit_complement zero i j h k = absurd (omega arith)
bit_complement (suc n) zero zero h k = ground (arith, pow-suc 2 n, one-le-pow n 2)
bit_complement (suc n) zero (suc j) h k = rw (half n) (bit_ones n j (omega arith) ∙ ground arith)
  where
    half : (n : ℕ) → (2 ^ suc n - 1 - 2 ^ 0) / 2 ≡ 2 ^ n - 1
    half n = omega (arith, pow-suc 2 n, one-le-pow n 2)
bit_complement (suc n) (suc i) zero h k =
    ground (arith, pow-suc 2 n, pow-suc 2 i, one-le-pow n 2, pow_below n i (omega arith))
bit_complement (suc n) (suc i) (suc j) h k =
    rw (half n i) (bit_complement n i j (omega arith) (omega arith) ∙ ground arith)
  where
    half : (n i : ℕ) → (2 ^ suc n - 1 - 2 ^ suc i) / 2 ≡ 2 ^ n - 1 - 2 ^ i
    half n i = omega (arith, pow-suc 2 n, pow-suc 2 i)

bit_and-zero : (n a : ℕ) → a ≤ n → bit_and a 0 ≡ 0
bit_and-zero n zero enough = refl
bit_and-zero zero (suc a) enough = absurd (omega arith)
bit_and-zero (suc n) (suc a) enough =
    omega (arith, bit_and_step (suc a) 0, bit_and-zero n (suc a / 2) (omega arith))

-- the operations of the code, on bit `j` of a word of 32 bits
abbrev pub test_bit : ℕ → ℕ → Bool
test_bit w j = not (bit_and w (2 ^ j) == 0)

abbrev pub set_bit : ℕ → ℕ → ℕ
set_bit w j = bit_or w (2 ^ j)

abbrev pub clear_bit : ℕ → ℕ → ℕ
clear_bit w j = bit_and w (2 ^ 32 - 1 - 2 ^ j)

pub test_bit_lem : (w j : ℕ) → test_bit w j ≡ bit w j
unfolding bit
test_bit_lem w zero = ground (arith, bit_and_step w 1, bit_and-zero (w / 2) (w / 2) (omega arith))
test_bit_lem w (suc j) = ground (
  arith,
  bit_and_step w (2 ^ suc j),
  half-pow j,
  pow-suc 2 j,
  test_bit_lem (w / 2) j,
  ap (bit_and (w / 2)) (half-pow j),
)

pub test_bit-zero : (j : ℕ) → test_bit 0 j ≡ false
test_bit-zero j = test_bit_lem 0 j ∙ bit-zero j

pub bit-set_bit : (w i j : ℕ) → bit (set_bit w i) j ≡ (bit w j || (j == i))
bit-set_bit w i j = bit-bit_or w (2 ^ i) j ∙ ap (λ b. bit w j || b) (bit-pow i j)

pub bit-clear_bit :
    (w i j : ℕ) → i < 32 → j < 32 → bit (clear_bit w i) j ≡ (bit w j && not (j == i))
bit-clear_bit w i j h k =
    bit-bit_and w (2 ^ 32 - 1 - 2 ^ i) j ∙ ap (λ b. bit w j && b) (bit_complement 32 i j h k)

-- `n & 31`, the number of a bit in its word
pub bit_and_31 : (a : ℕ) → bit_and a 31 ≡ a % 32
bit_and_31 a = omega (
  arith,
  bit_and_step a 31,
  bit_and_step (a / 2) 15,
  bit_and_step (a / 2 / 2) 7,
  bit_and_step (a / 2 / 2 / 2) 3,
  bit_and_step (a / 2 / 2 / 2 / 2) 1,
  bit_and-zero (a / 2 / 2 / 2 / 2 / 2) (a / 2 / 2 / 2 / 2 / 2) (omega arith),
)
