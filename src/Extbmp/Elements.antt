-- ===== src/Extbmp/Elements.antt =====
-- The lists of the addresses in a word and in a leaf, and a scanner that sees all or none of a list.
use mathlib.Core.List.{append_assoc}
use larceny.Base.{
  ℕ, zero, suc, ◌+◌, ◌*◌, ◌≤◌, ◌<◌, ◌≡◌, refl, sym, ap, ◌∙◌, inl, inr, Bool, true, List, [], ◌∷◌,
  ◌++◌, arith, Bool-cases, ◌==◌, if◌then◌else◌, has, has-append,
}
use larceny.Bits.{bit, clear_bit, bit-clear_bit, bit-zero}
use larceny.Pool.Scan.{sift}

-- the addresses of the bits of a word, `n` bits from `j` on, and of `n` words from one on
unfoldable pub bit_elements : ℕ → ℕ → ℕ → ℕ → List ℕ
bit_elements zero base j curr = []
bit_elements (suc n) base j curr =
    let rest = bit_elements n base (j + 1) curr in
    if bit curr j then (base + 8 * j) ∷ rest else rest

unfoldable pub word_elements : ℕ → ℕ → ℕ → (ℕ → ℕ) → List ℕ
word_elements zero first word_idx bitmap = []
word_elements (suc n) first word_idx bitmap =
    bit_elements 32 (first + 256 * word_idx) 0 (bitmap word_idx)
    ++ word_elements n first (word_idx + 1) bitmap

pub bit_elements-cleared :
    (n base j curr i : ℕ)
    → i < j
    → j + n ≤ 32
    → bit_elements n base j (clear_bit curr i) ≡ bit_elements n base j curr
unfolding bit_elements
bit_elements-cleared zero base j curr i h b = refl
bit_elements-cleared (suc n) base j curr i h b = ground (
  arith,
  bit-clear_bit curr i j (omega arith) (omega arith),
  bit_elements-cleared n base (j + 1) curr i (omega arith) (omega arith),
)

pub bit_elements-zero : (n base j : ℕ) → bit_elements n base j 0 ≡ []
unfolding bit_elements
bit_elements-zero zero base j = refl
bit_elements-zero (suc n) base j = ground (arith, bit-zero j, bit_elements-zero n base (j + 1))

pub word_elements-agree :
    (n first word_idx : ℕ) (f g : ℕ → ℕ)
    → ((k : ℕ) → word_idx ≤ k → k < word_idx + n → f k ≡ g k)
    → word_elements n first word_idx f ≡ word_elements n first word_idx g
unfolding word_elements
word_elements-agree zero first word_idx f g same = refl
word_elements-agree (suc n) first word_idx f g same =
    rw
      (
        same word_idx (omega arith) (omega arith),
        word_elements-agree n first (word_idx + 1) f g
            (λ k low high. same k (omega arith) (omega arith)),
      )
      refl

pub has-bit_elements :
    (n base j curr x : ℕ)
    → has x (bit_elements n base j curr) ≡ true
    → (base + 8 * j ≤ x) × (x < base + 8 * (j + n))
unfolding bit_elements
has-bit_elements zero base j curr x h = absurd (ground arith)
has-bit_elements (suc n) base j curr x h = elim (Bool-cases (x == base + 8 * j)) [
  | inl e ↦ (ground arith, ground arith)
  | inr e ↦
      let (low, high) = has-bit_elements n base (j + 1) curr x (ground arith) in
      (omega (arith, low), omega (arith, high))
]

pub has-word_elements :
    (n first word_idx : ℕ) (bitmap : ℕ → ℕ) (x : ℕ)
    → has x (word_elements n first word_idx bitmap) ≡ true
    → (first + 256 * word_idx ≤ x) × (x < first + 256 * (word_idx + n))
unfolding word_elements
has-word_elements zero first word_idx bitmap x h = absurd (ground arith)
has-word_elements (suc n) first word_idx bitmap x h =
    let base = first + 256 * word_idx in
    let xs = bit_elements 32 base 0 (bitmap word_idx) in
    elim (Bool-cases (has x xs)) [
      | inl e ↦
          let (low, high) = has-bit_elements 32 base 0 (bitmap word_idx) x e in
          (omega (arith, low), omega (arith, high))
      | inr e ↦
          let (low, high) =
            has-word_elements n first (word_idx + 1) bitmap x
              (ground (arith, has-append x xs (word_elements n first (word_idx + 1) bitmap))) in
          (omega (arith, low), omega (arith, high))
    ]

pub word_elements-append :
    (m n total first word_idx : ℕ) (bitmap : ℕ → ℕ)
    → total ≡ m + n
    → word_elements total first word_idx bitmap
      ≡ word_elements m first word_idx bitmap ++ word_elements n first (word_idx + m) bitmap
unfolding word_elements
word_elements-append zero n total first word_idx bitmap e =
    let p : total ≡ n = omega arith in
    let q : word_idx + 0 ≡ word_idx = omega arith in rw (p, q) refl
word_elements-append (suc m) n zero first word_idx bitmap e = absurd (omega arith)
word_elements-append (suc m) n (suc total) first word_idx bitmap e =
    let bits = bit_elements 32 (first + 256 * word_idx) 0 (bitmap word_idx) in
    let q : word_idx + 1 + m ≡ word_idx + suc m = omega arith in
    ap (λ l. bits ++ l)
      (word_elements-append m n total first (word_idx + 1) bitmap (omega arith)
        ∙ ap (λ i. word_elements m first (word_idx + 1) bitmap ++ word_elements n first i bitmap) q)
    ∙ sym (append_assoc bits _ _)

-- The scanner's effect where it sees every element of a list, and where it sees none.
module _ {S : Type 0} (f g : ℕ → S → Bool × S) where
  pub sift-cong :
      (xs : List ℕ) (s : S)
      → ((x : ℕ) → has x xs ≡ true → (t : S) → f x t ≡ g x t)
      → sift f xs s ≡ sift g xs s
  unfolding sift
  sift-cong [] s same = refl
  sift-cong (x ∷ xs) s same =
      let rest = sift-cong xs (g x s).1 (λ y m t. same y (ground (arith, m)) t) in
      rw (same x (ground arith) s, rest, sift) refl

  pub sift-none :
      (xs : List ℕ) (s : S)
      → ((x : ℕ) → has x xs ≡ true → (t : S) → f x t ≡ (true, t))
      → sift f xs s ≡ (xs, s)
  unfolding sift
  sift-none [] s same = refl
  sift-none (x ∷ xs) s same =
      let rest = sift-none xs s (λ y m t. same y (ground (arith, m)) t) in
      rw (same x (ground arith) s, rest, sift) refl
