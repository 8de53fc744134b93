-- ===== src/Extbmp/Find.antt =====
-- The search for the leaf that covers an address, which allocates what is missing if it is told to,
-- and the cache of the leaf found last.
use larceny.Base.{
  ℕ, zero, suc, ◌+◌, ◌-◌, ◌*◌, ◌/◌, ◌%◌, Bool, true, false, not, ◌&&◌, Option, none, some, update,
  ltb, leb, ◌==◌, if◌then◌else◌,
}
use larceny.Extbmp.{
  Inode, Tnode, Leaves, Extbmp, wrap, minus, leaf_wordaddr_lim, alloc_leaf, alloc_inode,
}

-- the node that the code allocates at a depth
unfoldable pub alloc_child :
    ℕ → ℕ → (depth : ℕ) → ℕ → ℕ → ℕ → Leaves → Option (Tnode depth × Leaves)
alloc_child leaf_words entries zero range start limit lv = alloc_leaf leaf_words start limit lv
alloc_child leaf_words entries (suc depth) range start limit lv =
    elim (alloc_inode entries range start limit) [ none ↦ none | some inode ↦ some (inode, lv) ]

-- the index of the child of a node at `start` that covers the address `w`, and the child's start
abbrev pub child_index : ℕ → ℕ → ℕ → ℕ
child_index per_child start w = minus w start / 4 / per_child

abbrev pub child_start : ℕ → ℕ → ℕ → ℕ
child_start per_child start idx = wrap (start + 4 * (idx * per_child))

-- The child at an index with the leaves, allocated if it is NULL and the flag is set; `some none`
-- for a child that stays NULL.
unfoldable pub child_or_alloc :
    ℕ
    → ℕ
    → Bool
    → (depth : ℕ) → Inode (Tnode depth)
    → ℕ
    → ℕ
    → Leaves
    → Option (Option (Tnode depth × Leaves))
child_or_alloc leaf_words entries alloc_if_unfound depth inode idx new_start lv =
    let per_child = inode.address_words_per_child in
    elim (inode.nodes idx) [
      | some child ↦ some (some (child, lv))
      | none ↦ elim alloc_if_unfound [
        | false ↦ some none
        | true ↦
            elim (alloc_child leaf_words entries depth per_child new_start
              (wrap (new_start + 4 * per_child)) lv) [ none ↦ none | some made ↦ some (some made) ]
      ]
    ]

-- what a search returns: the leaf with its first address, the tree and the leaves
abbrev pub Result : Type 0 → Type 0
Result A = Option (Option (ℕ × ℕ) × A × Leaves)

abbrev pub put_child : {A : Type 0} → Inode A → ℕ → Result A → Result (Inode A)
put_child inode idx none = none
put_child inode idx (some (found, child, lv)) =
    some (found, record inode { nodes = update inode.nodes idx (some child) }, lv)

module _ (leaf_words entries : ℕ) (alloc_if_unfound : Bool) (w : ℕ) where
  unfoldable pub find_leaf_calc_offset_recur :
      (depth : ℕ) → Tnode depth → ℕ → Leaves → Result (Tnode depth)
  find_leaf_calc_offset_recur zero leaf start lv = some (some (leaf, start), leaf, lv)
  find_leaf_calc_offset_recur (suc depth) inode start lv =
      let per_child = inode.address_words_per_child in
      let idx = child_index per_child start w in
      let new_start = child_start per_child start idx in
      elim (child_or_alloc leaf_words entries alloc_if_unfound depth inode idx new_start lv) [
        | none ↦ none
        | some none ↦ some (none, inode, lv)
        | some (some (child, lv')) ↦
            put_child inode idx (find_leaf_calc_offset_recur depth child new_start lv')
      ]

-- the address without the three bits of a tag
abbrev pub strip_tag : ℕ → ℕ
strip_tag w = w - w % 8

abbrev pub cached : Extbmp → ℕ → Bool
cached ebmp w =
    not (ebmp.mru_leaf == 0)
    && (leb ebmp.mru_first (strip_tag w)
        && ltb (strip_tag w) (leaf_wordaddr_lim ebmp.leaf_words ebmp.mru_first))

unfoldable pub find_leaf_calc_offset : Extbmp → ℕ → Bool → Option (Option (ℕ × ℕ) × Extbmp)
find_leaf_calc_offset ebmp w alloc_if_unfound =
    if cached ebmp w
    then some (some (ebmp.mru_leaf, ebmp.mru_first), ebmp)
    else elim (find_leaf_calc_offset_recur ebmp.leaf_words ebmp.entries_per_inode alloc_if_unfound w
        ebmp.depth ebmp.tree 0 ebmp.leaves) [
          | none ↦ none
          | some (none, tree, lv) ↦ some (none, record ebmp { tree = tree; leaves = lv })
          | some (some (leaf, first), tree, lv) ↦ some (
            some (leaf, first),
            record ebmp { tree = tree; leaves = lv; mru_leaf = leaf; mru_first = first },
          )
        ]

unfoldable pub find_or_alloc_leaf : Extbmp → ℕ → Option (Option (ℕ × ℕ) × Extbmp)
find_or_alloc_leaf ebmp w = find_leaf_calc_offset ebmp w true

unfoldable pub find_leaf_or_fail : Extbmp → ℕ → Option (Option (ℕ × ℕ) × Extbmp)
find_leaf_or_fail ebmp w = find_leaf_calc_offset ebmp w false
