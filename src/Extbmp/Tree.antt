-- ===== src/Extbmp/Tree.antt =====
-- The addresses in a tree, in order, and what a change to other leaves leaves alone.
use mathlib.Core.List.{append_assoc}
use native.Mathlib.Nat.{mul_comm, mul_assoc}
use larceny.Base.{
  ℕ, zero, suc, ◌+◌, ◌*◌, ◌%◌, ◌≤◌, ◌<◌, ◌≡◌, ◌≢◌, refl, sym, ap, ◌∙◌, inl, inr, Option, none, some,
  List, [], ◌++◌, arith, Option-cases,
}
use larceny.Extbmp.{Tnode, Leaves}
use larceny.Extbmp.Shape.{words, Shaped, child_inside}
use larceny.Extbmp.Elements.{word_elements}

-- what a function reads off the children of a node: one child, or `n` of them from child `i` on
module _ {A : Type 0} (of : A → ℕ → List ℕ) (size start : ℕ) where
  unfoldable pub slot_elements : ℕ → Option A → List ℕ
  slot_elements i none = []
  slot_elements i (some child) = of child (start + 4 * (i * size))

  unfoldable pub children_elements : ℕ → ℕ → (ℕ → Option A) → List ℕ
  children_elements zero i nodes = []
  children_elements (suc n) i nodes = slot_elements i (nodes i) ++ children_elements n (i + 1) nodes

  pub children_elements-append :
      (m n total i : ℕ) (nodes : ℕ → Option A)
      → total ≡ m + n
      → children_elements total i nodes
        ≡ children_elements m i nodes ++ children_elements n (i + m) nodes
  unfolding children_elements
  children_elements-append zero n total i nodes e =
      let p : total ≡ n = omega arith in let q : i + 0 ≡ i = omega arith in rw (p, q) refl
  children_elements-append (suc m) n zero i nodes e = absurd (omega arith)
  children_elements-append (suc m) n (suc total) i nodes e =
      let q : i + 1 + m ≡ i + suc m = omega arith in
      ap (λ l. slot_elements i (nodes i) ++ l)
        (children_elements-append m n total (i + 1) nodes (omega arith)
          ∙ ap (λ k. children_elements m (i + 1) nodes ++ children_elements n k nodes) q)
      ∙ sym (append_assoc (slot_elements i (nodes i)) _ _)

pub children-cong :
    {A : Type 0} (f g : A → ℕ → List ℕ) (size start n i : ℕ) (nodes nodes' : ℕ → Option A)
    → ((k : ℕ)
        → i ≤ k
        → k < i + n
        → slot_elements f size start k (nodes k) ≡ slot_elements g size start k (nodes' k))
    → children_elements f size start n i nodes ≡ children_elements g size start n i nodes'
unfolding children_elements
children-cong f g size start zero i nodes nodes' same = refl
children-cong f g size start (suc n) i nodes nodes' same =
    let rest =
      children-cong f g size start n (i + 1) nodes nodes'
        (λ k l h. same k (omega arith) (omega arith)) in
    rw (same i (omega arith) (omega arith), rest) refl

-- The leaves whose first address lies in a range stay as they are.
pub record Frame (low high : ℕ) (lv lv' : Leaves) : Type 0 where
  pub brk : lv'.brk ≡ lv.brk
  pub same :
      (a : ℕ)
      → a ≢ 0
      → a < lv.brk
      → low ≤ (lv.at a).start
      → (lv.at a).start < high
      → ((lv'.at a).bitmap ≡ (lv.at a).bitmap) × ((lv'.at a).start ≡ (lv.at a).start)

module _ (leaf_words entries : ℕ) where
  unfoldable pub tree_elements : (depth : ℕ) → Leaves → Tnode depth → ℕ → List ℕ
  tree_elements zero lv leaf start = word_elements leaf_words start 0 (lv.at leaf).bitmap
  tree_elements (suc depth) lv inode start =
      children_elements (tree_elements depth lv) (words leaf_words entries depth) start entries 0
        inode.nodes

  pub words_multiple : (depth : ℕ) → (k : ℕ) × (words leaf_words entries depth ≡ 64 * k)
  words_multiple zero = (leaf_words, refl)
  words_multiple (suc depth) =
      let (k, e) = words_multiple depth in (k * entries, rw e (mul_assoc 64 k entries))

  pub place_aligned :
      (depth start i : ℕ)
      → start % 256 ≡ 0
      → (start + 4 * (i * words leaf_words entries depth)) % 256 ≡ 0
  place_aligned depth start i aligned =
      let (k, e) = words_multiple depth in
      rw (e, mul_comm i (64 * k), mul_assoc 64 k i) (omega arith)

  module _ (some_words : 0 < leaf_words) (some_entries : 0 < entries) where
    pub Frame-Shaped :
        (depth : ℕ) (t : Tnode depth) (start : ℕ) (lv lv' : Leaves)
        → Frame start (start + 4 * words leaf_words entries depth) lv lv'
        → Shaped leaf_words entries depth t start lv
        → Shaped leaf_words entries depth t start lv'
    Frame-Shaped zero t start lv lv' f sh =
        let at = f.same t sh.0 sh.1 (omega (arith, sh.2)) (omega (arith, sh.2)) in
        (sh.0, omega (arith, f.brk, sh.1), at.1 ∙ sh.2, sh.3)
    Frame-Shaped (suc depth) t start lv lv' f sh = (
      sh.0,
      sh.1,
      λ i bound child there.
          let (small, shaped) = sh.2 i bound child there in
          let inside = child_inside leaf_words entries some_words some_entries depth i bound in
          (
            small,
            Frame-Shaped depth child _ lv lv'
                (record {
                  brk = f.brk;
                  same = λ a n b l h. f.same a n b (omega arith) (omega (arith, inside));
                })
                shaped,
          ),
    )

    pub Frame-elements :
        (depth : ℕ) (t : Tnode depth) (start : ℕ) (lv lv' : Leaves)
        → Frame start (start + 4 * words leaf_words entries depth) lv lv'
        → Shaped leaf_words entries depth t start lv
        → tree_elements depth lv' t start ≡ tree_elements depth lv t start
    unfolding tree_elements slot_elements
    Frame-elements zero t start lv lv' f sh =
        let at = f.same t sh.0 sh.1 (omega (arith, sh.2)) (omega (arith, sh.2)) in
        ap (word_elements leaf_words start 0) at.0
    Frame-elements (suc depth) t start lv lv' f sh =
        children-cong (tree_elements depth lv') (tree_elements depth lv) _ start entries 0 t.nodes
          t.nodes
          (λ i low bound. elim (Option-cases (t.nodes i)) [
            | inl gone ↦ rw gone refl
            | inr (child, there) ↦
                let (small, shaped) = sh.2 i (omega arith) child there in
                let inside =
                  child_inside leaf_words entries some_words some_entries depth i (omega arith) in
                rw there (
                  Frame-elements depth child _ lv lv'
                    (record {
                      brk = f.brk;
                      same = λ a n b l h. f.same a n b (omega arith) (omega (arith, inside));
                    })
                    shaped)
          ])
