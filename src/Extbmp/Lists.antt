-- ===== src/Extbmp/Lists.antt =====
-- The doubly linked list of the leaves of each generation, list 0 holding the mixed leaves.
use larceny.Base.{
  ℕ, zero, suc, ◌+◌, ◌-◌, not, ◌||◌, Option, none, some, update, ltb, ◌==◌, if◌then◌else◌,
}
use larceny.Extbmp.{Leaf, Leaves, Extbmp, asserted, null_leaf}

-- a change of the leaf at an address
abbrev pub modify : Leaves → ℕ → (Leaf → Leaf) → Leaves
modify lv a change = record lv { at = update lv.at a (change (lv.at a)) }

abbrev pub modify_unless_null : Leaves → ℕ → (Leaf → Leaf) → Leaves
modify_unless_null lv a change = if a == 0 then lv else modify lv a change

unfoldable pub insert_leaf_in_list_core : Extbmp → ℕ → ℕ → Option Extbmp
insert_leaf_in_list_core ebmp leaf gno =
    let lv = ebmp.leaves in
    let old_first = ebmp.gno_to_leaf gno in
    let lv1 = modify lv leaf (λ l. record l { gno = some gno }) in
    let lv2 = modify lv1 old_first (λ l. record l { prev_for_gno = leaf }) in
    let lv3 = modify lv2 leaf (λ l. record l { next_for_gno = old_first }) in
    asserted ((lv.at leaf).prev_for_gno == 0) (
      asserted ((lv.at leaf).next_for_gno == 0) (
        asserted ((old_first == 0) || ((lv.at old_first).prev_for_gno == 0)) (
          some (record ebmp {
            leaves = if old_first == 0 then lv1 else lv3;
            gno_to_leaf = update ebmp.gno_to_leaf gno leaf;
          }))))

unfoldable pub insert_leaf_in_list : Extbmp → ℕ → ℕ → Option Extbmp
insert_leaf_in_list ebmp leaf gno = insert_leaf_in_list_core ebmp leaf gno

-- The callers pass a leaf on the list of a generation `old_gno`.
unfoldable pub move_leaf_to_mixed_list : Extbmp → ℕ → ℕ → Option Extbmp
move_leaf_to_mixed_list ebmp leaf old_gno =
    let prev = (ebmp.leaves.at leaf).prev_for_gno in
    let next = (ebmp.leaves.at leaf).next_for_gno in
    let lv1 = modify_unless_null ebmp.leaves prev (λ l. record l { next_for_gno = next }) in
    let lv2 = modify_unless_null lv1 next (λ l. record l { prev_for_gno = prev }) in
    let lv3 = modify lv2 leaf (λ l. record l { prev_for_gno = 0; next_for_gno = 0 }) in
    let heads = update ebmp.gno_to_leaf old_gno next in
    asserted (not (old_gno == 0)) (
      if ebmp.gno_to_leaf old_gno == leaf
      then asserted (prev == 0)
          (insert_leaf_in_list_core (record ebmp { leaves = lv3; gno_to_leaf = heads }) leaf 0)
      else insert_leaf_in_list_core (record ebmp { leaves = lv3 }) leaf 0)

-- The cache is invalidated when it holds the leaf, and the leaf leaves its list. The memory of a
-- freed leaf, which nothing reads, is cleared here. The code reads the table at -2, outside it, for a
-- leaf on no list; here the table stays, and no call leaves such a leaf in the tree.
unfoldable pub free_leaf : Extbmp → ℕ → Extbmp
free_leaf ebmp leaf =
    let l = ebmp.leaves.at leaf in
    let prev = l.prev_for_gno in
    let next = l.next_for_gno in
    let lv = record ebmp.leaves { leaf_count = ebmp.leaves.leaf_count - 1 } in
    let lv1 = modify_unless_null lv next (λ m. record m { prev_for_gno = prev }) in
    let lv2 = modify_unless_null lv1 prev (λ m. record m { next_for_gno = next }) in
    let cached = ebmp.mru_leaf == leaf in
    record ebmp {
      leaves = modify lv2 leaf (λ _. null_leaf);
      mru_leaf = if cached then 0 else ebmp.mru_leaf;
      mru_first = if cached then 0 else ebmp.mru_first;
      gno_to_leaf = elim l.gno [
        | none ↦ ebmp.gno_to_leaf
        | some gno ↦
            if ebmp.gno_to_leaf gno == leaf
            then update ebmp.gno_to_leaf gno next
            else ebmp.gno_to_leaf
      ];
    }

-- The leaves from `leaf` on, `fuel` at most: the generation number of each is incremented.
unfoldable pub increment_gnos : ℕ → ℕ → Leaves → Leaves
increment_gnos zero leaf lv = lv
increment_gnos (suc fuel) leaf lv =
    let moved =
      modify lv leaf λ l. record l { gno = elim l.gno [ none ↦ none | some g ↦ some (g + 1) ] } in
    let rest = increment_gnos fuel (lv.at leaf).next_for_gno moved in if leaf == 0 then lv else rest

-- `n` rounds of the second loop from entry `i` of the new array on.
unfoldable pub increment_lists : ℕ → ℕ → (ℕ → ℕ) → Leaves → Leaves
increment_lists zero i new_gno_to_leaf lv = lv
increment_lists (suc n) i new_gno_to_leaf lv =
    increment_lists n (i + 1) new_gno_to_leaf (increment_gnos lv.brk (new_gno_to_leaf i) lv)

unfoldable pub extbmp_expand_remset_gnos : Extbmp → ℕ → Extbmp
extbmp_expand_remset_gnos ebmp fresh_gno =
    let new_gno_count = ebmp.gno_count + 1 in
    let new_gno_to_leaf = λ (i : ℕ).
      if ltb i fresh_gno
      then ebmp.gno_to_leaf i
      else if i == fresh_gno
      then 0
      else ebmp.gno_to_leaf (i - 1) in
    record ebmp {
      gno_count = new_gno_count;
      gno_to_leaf = new_gno_to_leaf;
      leaves =
          increment_lists (new_gno_count - (fresh_gno + 1)) (fresh_gno + 1) new_gno_to_leaf
            ebmp.leaves;
    }

-- The list from `leaf` on, `fuel` leaves at most; a leaf of another generation fails the assertion.
unfoldable pub count_list : ℕ → Extbmp → ℕ → ℕ → ℕ → Option ℕ
count_list zero ebmp gno leaf c = some c
count_list (suc fuel) ebmp gno leaf c =
    let rest = count_list fuel ebmp gno (ebmp.leaves.at leaf).next_for_gno (c + 1) in
    if leaf == 0
    then some c
    else elim (ebmp.leaves.at leaf).gno [ none ↦ none | some g ↦ asserted (g == gno) rest ]

unfoldable pub count_gno_leaves : Extbmp → ℕ → Option ℕ
count_gno_leaves ebmp gno = count_list ebmp.leaves.brk ebmp gno (ebmp.gno_to_leaf gno) 0

-- `n` rounds of the loop over the generations from `i` on.
unfoldable pub count_lists : ℕ → ℕ → Extbmp → ℕ → Option ℕ
count_lists zero i ebmp c = some c
count_lists (suc n) i ebmp c = elim (count_gno_leaves ebmp i) [
  | none ↦ none
  | some k ↦ count_lists n (i + 1) ebmp (c + k)
]

unfoldable pub count_all_leaves : Extbmp → Option ℕ
count_all_leaves ebmp = count_lists ebmp.gno_count 0 ebmp 0
