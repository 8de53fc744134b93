-- ===== src/Extbmp/Range.antt =====
-- The elements of a tree lie in its range.
use native.Mathlib.Nat.{mul-le-mul_right, mul_comm}
use larceny.Base.{
  ℕ, zero, suc, ◌+◌, ◌*◌, ◌≤◌, ◌<◌, ◌≡◌, sym, ◌∙◌, inl, inr, true, Option, List, arith,
  Option-cases, Bool-cases, has, has-append,
}
use larceny.Extbmp.{Tnode, Leaves}
use larceny.Extbmp.Shape.{words}
use larceny.Extbmp.Tree.{slot_elements, children_elements, tree_elements}
use larceny.Extbmp.Elements.{has-word_elements}

-- The elements of children lie in the children's ranges.
pub has-children :
    {A : Type 0} (of : A → ℕ → List ℕ) (size start : ℕ)
    → ((child : A) (begin x : ℕ)
        → has x (of child begin) ≡ true
        → (begin ≤ x) × (x < begin + 4 * size))
    → (x n i : ℕ) (nodes : ℕ → Option A) → has x (children_elements of size start n i nodes) ≡ true
    → (start + 4 * (i * size) ≤ x) × (x < start + 4 * ((i + n) * size))
unfolding children_elements slot_elements
has-children of size start bound x zero i nodes m = absurd (ground arith)
has-children of size start bound x (suc n) i nodes m =
    let rest = children_elements of size start n (i + 1) nodes in
    let later = mul-le-mul_right {m = i + 1} {n = i + suc n} size (omega arith) in
    elim (Option-cases (nodes i)) [
      | inl gone ↦
          let (low, high) =
            has-children of size start bound x n (i + 1) nodes (rw (gone, slot_elements) at m) in
          (omega (arith, low), omega (arith, high))
      | inr (child, there) ↦
          let begin = start + 4 * (i * size) in
          let split = sym (has-append x (of child begin) rest) ∙ rw (there, slot_elements) at m in
          elim (Bool-cases (has x (of child begin))) [
            | inl first_one ↦
                let (low, high) = bound child begin x first_one in (low, omega (arith, high, later))
            | inr other ↦
                let (low, high) =
                  has-children of size start bound x n (i + 1) nodes (rw other at split) in
                (omega (arith, low), omega (arith, high))
          ]
    ]

module _ (leaf_words entries : ℕ) where
  -- The elements of a tree lie in its range.
  pub has-tree_elements :
      (depth : ℕ) (lv : Leaves) (t : Tnode depth) (start x : ℕ)
      → has x (tree_elements leaf_words entries depth lv t start) ≡ true
      → (start ≤ x) × (x < start + 4 * words leaf_words entries depth)
  unfolding tree_elements
  has-tree_elements zero lv t start x h =
      let (low, high) = has-word_elements leaf_words start 0 (lv.at t).bitmap x h in
      (omega (arith, low), omega (arith, high))
  has-tree_elements (suc depth) lv t start x h =
      let (low, high) =
        has-children (tree_elements leaf_words entries depth lv) (words leaf_words entries depth)
          start (λ child begin y m. has-tree_elements depth lv child begin y m) x entries 0 t.nodes
          h in
      (omega (arith, low), omega (arith, high, mul_comm entries (words leaf_words entries depth)))
