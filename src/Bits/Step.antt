-- ===== src/Bits/Step.antt =====
-- One equation for the lowest digit of `bit_and` and of `bit_or`: the library's definitions of
-- both are a recursion on digits with fuel, and here the fuel is dropped.
use Prim.Native.Nat.{digits, bitwise, bit_and-bitwise, bit_or-bitwise}
use larceny.Base.{
  ℕ, zero, suc, ◌+◌, ◌*◌, ◌/◌, ◌%◌, ◌≤◌, min, max, bit_and, bit_or, ◌≡◌, refl, ap, ◌∙◌, arith, inl,
  inr, ◌==◌, Bool-cases,
}

module _ (low : ℕ → ℕ) (f : ℕ → ℕ → ℕ) where
  -- one more unit of fuel changes nothing once there is enough
  one_more : (n a b : ℕ) → a ≤ n → digits low f (suc n) a b ≡ digits low f n a b
  one_more zero zero b enough = refl
  one_more (suc n) zero b enough = refl
  one_more zero (suc a) b enough = absurd (omega arith)
  one_more (suc n) (suc a) b enough =
      ap (λ q. q * 2 + f (suc a % 2) (b % 2)) (one_more n (suc a / 2) (b / 2) (omega arith))

  many_more : (n a b : ℕ) → a ≤ n → digits low f n a b ≡ bitwise low f a b
  many_more zero a b enough = ap (λ c. digits low f c a b) {x = 0} (omega arith)
  many_more (suc n) a b enough = elim (Bool-cases (a == suc n)) [
    | inl same ↦ ap (λ c. digits low f c a b) {x = suc n} (ground arith)
    | inr more ↦ one_more n a b (ground arith) ∙ many_more n a b (ground arith)
  ]

  lowest_digit :
      (a b : ℕ)
      → bitwise low f (suc a) b ≡ bitwise low f (suc a / 2) (b / 2) * 2 + f (suc a % 2) (b % 2)
  lowest_digit a b =
      ap (λ q. q * 2 + f (suc a % 2) (b % 2)) (many_more a (suc a / 2) (b / 2) (omega arith))

pub bit_or_step : (x y : ℕ) → bit_or x y ≡ bit_or (x / 2) (y / 2) * 2 + max (x % 2) (y % 2)
bit_or_step zero y = simp bit_or-bitwise (omega arith)
bit_or_step (suc x) y = simp bit_or-bitwise (lowest_digit (λ d. d) max x y)

pub bit_and_step : (x y : ℕ) → bit_and x y ≡ bit_and (x / 2) (y / 2) * 2 + min (x % 2) (y % 2)
bit_and_step zero y = simp bit_and-bitwise (omega arith)
bit_and_step (suc x) y = simp bit_and-bitwise (lowest_digit (λ d. 0) min x y)
