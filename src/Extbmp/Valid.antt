-- ===== src/Extbmp/Valid.antt =====
-- The invariant of an extensible bitmap, and the set of addresses that it stands for.
use mathlib.Core.Path.{fun_ext}
use larceny.Base.{
  ℕ, zero, suc, ◌+◌, ◌*◌, ◌%◌, ◌^◌, ◌≤◌, ◌<◌, ◌≡◌, refl, sym, ap, ◌∙◌, ◌⊎◌, inl, inr, Bool, false,
  Option, some, Option-cases, Bool-cases, update, ◌==◌, ==_iff,
}
use larceny.Extbmp.{Inode, Tnode, Leaves, Extbmp}
use larceny.Extbmp.Find.{child_index, child_start, find_leaf_calc_offset_recur, child_or_alloc}
use larceny.Extbmp.Shape.{look, words, Shaped}
use larceny.Extbmp.Linked.{Linked}
use larceny.Extbmp.Grow.{in_tree, IsUnlisted}

abbrev pub gnos : Leaves → ℕ → Option ℕ
gnos lv leaf = (lv.at leaf).gno

abbrev pub prevs : Leaves → ℕ → ℕ
prevs lv leaf = (lv.at leaf).prev_for_gno

abbrev pub nexts : Leaves → ℕ → ℕ
nexts lv leaf = (lv.at leaf).next_for_gno

abbrev pub find_tree : Extbmp → ℕ → Option (ℕ × ℕ)
find_tree ebmp w = look w ebmp.depth ebmp.tree 0

-- The cache is empty, or its leaf is what the tree has for each address of the leaf.
abbrev pub Cached : Extbmp → Type 0
Cached ebmp =
    (ebmp.mru_leaf ≡ 0)
    ⊎ ((ebmp.mru_first + 4 * (64 * ebmp.leaf_words) < 2 ^ 32)
        × ((w : ℕ)
            → ebmp.mru_first ≤ w
            → w < ebmp.mru_first + 4 * (64 * ebmp.leaf_words)
            → find_tree ebmp w ≡ some (ebmp.mru_leaf, ebmp.mru_first)))

pub record IsValid (ebmp : Extbmp) : Type 0 where
  pub some_words : 0 < ebmp.leaf_words
  pub some_entries : 0 < ebmp.entries_per_inode
  pub covers : 2 ^ 32 ≤ 4 * words ebmp.leaf_words ebmp.entries_per_inode ebmp.depth
  pub brk_pos : 0 < ebmp.leaves.brk
  pub shaped : Shaped ebmp.leaf_words ebmp.entries_per_inode ebmp.depth ebmp.tree 0 ebmp.leaves
  pub cache : Cached ebmp
  pub blank : (leaf : ℕ) → ebmp.leaves.brk ≤ leaf → IsUnlisted (ebmp.leaves.at leaf)
  pub linked : Linked (gnos ebmp.leaves) (prevs ebmp.leaves) (nexts ebmp.leaves) ebmp.gno_to_leaf

-- An address of an object: a multiple of 8 that the tree can hold.
abbrev pub Address : Extbmp → ℕ → Type 0
Address ebmp w = (w % 8 ≡ 0) × (w + 4 * (64 * ebmp.leaf_words) < 2 ^ 32)

-- membership in the set that a bitmap stands for
unfoldable pub contains : Extbmp → ℕ → Bool
contains ebmp w = in_tree w ebmp.depth ebmp.tree 0 ebmp.leaves

-- Without allocation the search changes nothing.
module _ (leaf_words entries w : ℕ) where
  put_same :
      {A : Type 0} (t : Inode A) (i : ℕ) (child : A)
      → t.nodes i ≡ some child
      → record t { nodes = update t.nodes i (some child) } ≡ t
  put_same t i child there =
      ap (λ f. record t { nodes = f })
        (fun_ext λ j. elim (Bool-cases (j == i)) [
          | inl e ↦ rw e (sym (ap t.nodes ((==_iff j i).0 e) ∙ there))
          | inr e ↦ rw e refl
        ])

  pub find_recur_lem :
      (depth : ℕ) (t : Tnode depth) (start : ℕ) (lv : Leaves)
      → find_leaf_calc_offset_recur leaf_words entries false w depth t start lv
        ≡ some (look w depth t start, t, lv)
  unfolding find_leaf_calc_offset_recur look child_or_alloc
  find_recur_lem zero t start lv = refl
  find_recur_lem (suc depth) t start lv =
      let i = child_index t.address_words_per_child start w in
      elim (Option-cases (t.nodes i)) [
        | inl gone ↦ rw (gone, child_or_alloc, find_leaf_calc_offset_recur, look) refl
        | inr (child, there) ↦
            let begin = child_start t.address_words_per_child start i in
            rw
              (
                there,
                child_or_alloc,
                find_leaf_calc_offset_recur,
                look,
                find_recur_lem depth child begin lv,
              )
              (ap (λ u. some (look w depth child begin, u, lv)) (put_same t i child there))
      ]
