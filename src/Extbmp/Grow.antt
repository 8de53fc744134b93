-- ===== src/Extbmp/Grow.antt =====
-- The bit of an address in a tree of a memory of leaves, and memories that only grow.
use mathlib.Core.Path.{subst}
use larceny.Base.{
  ℕ, suc, ◌≤◌, ◌<◌, ◌≡◌, refl, sym, ap, ◌∙◌, inl, inr, Bool, false, Option, none, some, arith,
  Bool-cases, ltb,
}
use larceny.Extbmp.{Leaf, Inode, Tnode, Leaves}
use larceny.Extbmp.Find.{child_index, child_start}
use larceny.Extbmp.Ops.{entry_bit}
use larceny.Extbmp.Shape.{look, look-null, look-child}

-- whether the bit of an address is set in the leaf that covers it
abbrev pub bit_at : ℕ → Leaves → Option (ℕ × ℕ) → Bool
bit_at x lv none = false
bit_at x lv (some (leaf, first)) = entry_bit (lv.at leaf) x first

unfoldable pub in_tree : ℕ → (depth : ℕ) → Tnode depth → ℕ → Leaves → Bool
in_tree x depth t start lv = bit_at x lv (look x depth t start)

-- a leaf on no list
pub record IsUnlisted (l : Leaf) : Type 0 where
  pub no_gno : l.gno ≡ none
  pub no_prev : l.prev_for_gno ≡ 0
  pub no_next : l.next_for_gno ≡ 0

-- New leaves may appear; those that were there stay as they are.
pub record Grows (lv lv' : Leaves) : Type 0 where
  pub more : lv.brk ≤ lv'.brk
  pub same : (leaf : ℕ) → leaf < lv.brk → lv'.at leaf ≡ lv.at leaf
  pub blank : (leaf : ℕ) → lv.brk ≤ leaf → IsUnlisted (lv.at leaf) → IsUnlisted (lv'.at leaf)

pub Grows-trans : (a b c : Leaves) → Grows a b → Grows b c → Grows a c
Grows-trans a b c g h = record {
  more = omega (arith, g.more, h.more);
  same = λ leaf below. h.same leaf (omega (arith, g.more)) ∙ g.same leaf below;
  blank = λ leaf above unlisted. elim (Bool-cases (ltb leaf b.brk)) [
    | inl e ↦ subst IsUnlisted (sym (h.same leaf (ground arith))) (g.blank leaf above unlisted)
    | inr e ↦ h.blank leaf (ground arith) (g.blank leaf above unlisted)
  ];
}

pub Grows-refl : (lv : Leaves) → Grows lv lv
Grows-refl lv = record {
  more = omega arith;
  same = λ leaf below. refl;
  blank = λ leaf above unlisted. unlisted;
}

-- One level of a search for an address.
module _ (x depth : ℕ) (t : Inode (Tnode depth)) (start : ℕ) (lv : Leaves) where
  abbrev index_for : ℕ
  index_for = child_index t.address_words_per_child start x

  pub in_tree-null : t.nodes index_for ≡ none → in_tree x (suc depth) t start lv ≡ false
  unfolding in_tree
  in_tree-null gone = ap (bit_at x lv) (look-null x depth t start gone)

  pub in_tree-child :
      (child : Tnode depth) (begins : ℕ)
      → t.nodes index_for ≡ some child
      → child_start t.address_words_per_child start index_for ≡ begins
      → in_tree x (suc depth) t start lv ≡ in_tree x depth child begins lv
  unfolding in_tree
  in_tree-child child begins there e =
      ap (bit_at x lv) (look-child x depth t start child begins there e)
