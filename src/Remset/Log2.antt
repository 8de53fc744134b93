-- ===== src/Remset/Log2.antt =====
-- What ilog2 computes, which create_remset and create_locset test against -1.
use native.Mathlib.Nat.{pow-suc, one-le-pow}
use native.Mathlib.Numerals.{add-one}
use larceny.Base.{
  ℕ, zero, suc, ◌+◌, ◌*◌, ◌/◌, ◌%◌, ◌^◌, ◌≡◌, refl, ap, ◌∙◌, ◌≢◌, ◌<◌, ◌≤◌, ◌↔◌, ◌⊎◌, none, some,
  true, false, not, ◌&&◌, arith, ◌==◌, Bool-cases, inl, inr,
}
use larceny.Remset.{halve_while_even, ilog2, is_none}

-- The loop divides out the powers of two, which it counts, and stops at an odd number.
halve_odd :
    (fuel n p : ℕ)
    → n < fuel
    → n ≢ 0
    → let r = halve_while_even fuel n p in (r.0 % 2 ≡ 1) × (r.0 * 2 ^ r.1 ≡ n * 2 ^ p)
unfolding halve_while_even
halve_odd zero n p f h = absurd (omega arith)
halve_odd (suc fuel) n p f h = elim (Bool-cases (n % 2 == 0)) [
  | inl even ↦
      let ih = halve_odd fuel (n / 2) (p + 1) (ground arith) (ground arith) in
      let half : n ≡ n / 2 * 2 = ground arith in
      let scaled : n / 2 * 2 ^ (p + 1) ≡ n * 2 ^ p =
        rw (add-one, pow-suc) (omega (arith, ap (λ (t : ℕ). t * 2 ^ p) half)) in
      let positive : (n == 0) ≡ false = ground arith in rw (positive, even) (ih.0, ih.1 ∙ scaled)
  | inr odd ↦ ground arith
]

halve_pow : (fuel k p : ℕ) → k < fuel → halve_while_even fuel (2 ^ k) p ≡ (1, p + k)
unfolding halve_while_even
halve_pow zero k p f = absurd (omega arith)
halve_pow (suc fuel) zero p f = ground arith
halve_pow (suc fuel) (suc k) p f =
    let positive : 1 ≤ 2 ^ k = one-le-pow k 2 (omega arith) in
    let even : (2 ^ k * 2 % 2 == 0) ≡ true = ground arith in
    let nonzero : (2 ^ k * 2 == 0) ≡ false = ground arith in
    let half : 2 ^ k * 2 / 2 ≡ 2 ^ k = omega arith in
    rw (pow-suc, nonzero, even, half)
      (halve_pow fuel k (p + 1) (omega arith) ∙ ap (λ q. (1, q)) (omega arith))

le-two_pow : (k : ℕ) → k < 2 ^ k
le-two_pow zero = omega arith
le-two_pow (suc k) = rw pow-suc (omega (arith, le-two_pow k))

ilog2-zero : ilog2 0 ≡ none
unfolding ilog2 halve_while_even
ilog2-zero = refl

-- A result shows that the loop stopped at 1.
ilog2_parts :
    (n r : ℕ)
    → ilog2 n ≡ some r
    → ((halve_while_even (suc n) n 0).0 ≡ 1) × (r ≡ (halve_while_even (suc n) n 0).1 + 1)
unfolding ilog2
ilog2_parts n r h = ground arith

ilog2_sound : (n r : ℕ) → ilog2 n ≡ some r → n * 2 ≡ 2 ^ r
ilog2_sound zero r h = cc ilog2-zero
ilog2_sound (suc n) r h =
    let (one, count) = ilog2_parts (suc n) r h in
    let (odd, product) = halve_odd (suc (suc n)) (suc n) 0 (omega arith) (omega arith) in
    rw (count, add-one, pow-suc) (omega (arith, rw one at product))

ilog2_complete : (n r : ℕ) → n * 2 ≡ 2 ^ r → ilog2 n ≡ some r
unfolding ilog2
ilog2_complete n zero h = absurd (omega arith)
ilog2_complete n (suc k) h =
    let power : n ≡ 2 ^ k = omega (arith, pow-suc 2 k) in
    rw (power, halve_pow (suc (2 ^ k)) k 0 (omega (arith, le-two_pow k))) (ground arith)

-- ilog2 answers r for exactly the numbers n with 2n = 2^r: its result for a power of two is one
-- more than the logarithm, and -1 for every other number.
pub ilog2_iff : (n r : ℕ) → (ilog2 n ≡ some r) ↔ (n * 2 ≡ 2 ^ r)
ilog2_iff n r = (ilog2_sound n r, ilog2_complete n r)

-- the table sizes that the assertion of the constructors lets through
abbrev pub IsTableSize : ℕ → Type 0
IsTableSize n = (n ≡ 0) ⊎ ((k : ℕ) × (n ≡ 2 ^ k))

pub table_size_ok : (n : ℕ) → IsTableSize n → (not (n == 0) && is_none (ilog2 n)) ≡ false
table_size_ok n (inl z) = ground arith
table_size_ok n (inr (k, e)) =
    let twice : n * 2 ≡ 2 ^ suc k = omega (arith, pow-suc 2 k) in
    rw (ilog2_complete n (suc k) twice)
      (elim (Bool-cases (n == 0)) [ inl z ↦ rw z refl | inr z ↦ rw z refl ])
