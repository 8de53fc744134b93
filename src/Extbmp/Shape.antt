-- ===== src/Extbmp/Shape.antt =====
-- The shape of a tree: every node covers the addresses that its place in the tree gives it.
use native.Mathlib.Nat.{mul-le-mul_right, mul_comm}
use larceny.Base.{
  ℕ, zero, suc, ◌+◌, ◌*◌, ◌^◌, ◌≤◌, ◌<◌, ◌≡◌, ◌≢◌, refl, sym, ap, ◌∙◌, inl, inr, Option, none, some,
  arith, Option-cases,
}
use larceny.Extbmp.{Inode, Tnode, Leaves}
use larceny.Extbmp.Find.{child_index, child_start}
use larceny.Extbmp.Index.{child_index-Covers, Covers-unique, index_below}

-- the leaf that covers an address, with its first address, when nothing is allocated
unfoldable pub look : ℕ → (depth : ℕ) → Tnode depth → ℕ → Option (ℕ × ℕ)
look w zero leaf start = some (leaf, start)
look w (suc depth) inode start =
    let per_child = inode.address_words_per_child in
    let idx = child_index per_child start w in
    elim (inode.nodes idx) [
      | none ↦ none
      | some child ↦ look w depth child (child_start per_child start idx)
    ]

module _ (w depth : ℕ) (inode : Inode (Tnode depth)) (start : ℕ) where
  abbrev index_for : ℕ
  index_for = child_index inode.address_words_per_child start w

  pub look-null : inode.nodes index_for ≡ none → look w (suc depth) inode start ≡ none
  unfolding look
  look-null gone = rw (gone, look) refl

  pub look-child :
      (child : Tnode depth) (begins : ℕ)
      → inode.nodes index_for ≡ some child
      → child_start inode.address_words_per_child start index_for ≡ begins
      → look w (suc depth) inode start ≡ look w depth child begins
  unfolding look
  look-child child begins there e = rw (there, look) (ap (look w depth child) e)

module _ (leaf_words entries : ℕ) where
  -- the words of address space that a node of a depth covers
  abbrev pub words : ℕ → ℕ
  words zero = 64 * leaf_words
  words (suc depth) = words depth * entries

  -- Each leaf is in the memory and knows its first address; the address space does not end in it.
  abbrev pub Shaped : (depth : ℕ) → Tnode depth → ℕ → Leaves → Type 0
  Shaped zero leaf start lv =
      (leaf ≢ 0)
      × (leaf < lv.brk)
      × ((lv.at leaf).start ≡ start)
      × (start + 4 * (64 * leaf_words) < 2 ^ 32)
  Shaped (suc depth) inode start lv =
      (inode.address_words_per_child ≡ words depth)
      × (inode.address_range_in_words ≡ words (suc depth))
      × ((i : ℕ)
          → i < entries
          → (child : Tnode depth) → inode.nodes i ≡ some child
          → (start + 4 * (i * words depth) < 2 ^ 32)
            × Shaped depth child (start + 4 * (i * words depth)) lv)

  -- what the search finds for an address in a tree at `start`
  pub record Hit (w depth start leaf first : ℕ) (lv : Leaves) : Type 0 where
    pub low : first ≤ w
    pub high : w < first + 4 * (64 * leaf_words)
    pub inside : start ≤ first
    pub within : first + 4 * (64 * leaf_words) ≤ start + 4 * words depth
    pub knows : (lv.at leaf).start ≡ first
    pub allocated : leaf < lv.brk
    pub not_null : leaf ≢ 0
    pub bounded : first + 4 * (64 * leaf_words) < 2 ^ 32

  module _ (some_words : 0 < leaf_words) (some_entries : 0 < entries) where
    pub words_pos : (depth : ℕ) → 0 < words depth
    words_pos zero = omega arith
    words_pos (suc depth) = omega (
      arith,
      words_pos depth,
      mul-le-mul_right {m = 1} {n = words depth} entries (words_pos depth),
    )

    -- The child that the search goes to, with the place that it has.
    pub record Child (w depth per_child start idx : ℕ) : Type 0 where
      pub begins : child_start per_child start idx ≡ start + 4 * (idx * words depth)
      pub from : start + 4 * (idx * words depth) ≤ w
      pub below : w < start + 4 * (idx * words depth) + 4 * words depth
      pub bound : idx < entries

    pub child_lem :
        (w depth per_child start : ℕ)
        → per_child ≡ words depth
        → start ≤ w
        → w < start + 4 * words (suc depth)
        → w < 2 ^ 32
        → Child w depth per_child start (child_index per_child start w)
    child_lem w depth r start shape low high small = rw shape (
        let c = child_index-Covers (words depth) start w (words_pos depth) low small in
        record {
          begins = c.begins;
          from = c.from;
          below = c.below;
          bound = index_below (words depth) entries start w _ high c.from;
        })

    -- The children of a node lie inside it.
    pub child_inside :
        (depth idx : ℕ)
        → idx < entries
        → 4 * (idx * words depth) + 4 * words depth ≤ 4 * words (suc depth)
    child_inside depth idx bound = omega (
      arith,
      mul-le-mul_right {m = idx + 1} {n = entries} (words depth) (omega arith),
      mul_comm (words depth) entries,
    )

    abbrev or_else : ℕ × ℕ → Option (ℕ × ℕ) → ℕ × ℕ
    or_else p none = p
    or_else p (some q) = q

    pub look-Hit :
        (w depth : ℕ) (t : Tnode depth) (start leaf first : ℕ) (lv : Leaves)
        → Shaped depth t start lv
        → start ≤ w
        → w < start + 4 * words depth
        → w < 2 ^ 32
        → look w depth t start ≡ some (leaf, first)
        → Hit w depth start leaf first lv
    unfolding look
    look-Hit w zero t start leaf first lv sh low high small e =
        let at_leaf = ap (λ o. (or_else (t, start) o).0) e in
        let at_start = ap (λ o. (or_else (t, start) o).1) e in
        rw⁻¹ at_leaf (
          rw⁻¹ at_start (record {
            low = low;
            high = high;
            inside = omega arith;
            within = omega arith;
            knows = sh.2;
            allocated = sh.1;
            not_null = sh.0;
            bounded = sh.3;
          }))
    look-Hit w (suc depth) t start leaf first lv sh low high small e =
        let c = child_lem w depth _ start sh.0 low high small in
        elim (Option-cases (t.nodes (child_index t.address_words_per_child start w))) [
          | inl gone ↦ absurd (ground (arith, look-null w depth t start gone))
          | inr (child, there) ↦
              let h =
                look-Hit w depth child _ leaf first lv (sh.2 _ c.bound child there).1 c.from c.below
                  small (sym (look-child w depth t start child _ there c.begins) ∙ e) in
              record {
                low = h.low;
                high = h.high;
                inside = omega (arith, h.inside);
                within = omega (arith, h.within, child_inside depth _ c.bound);
                knows = h.knows;
                allocated = h.allocated;
                not_null = h.not_null;
                bounded = h.bounded;
              }
        ]

    pub same_index :
        (x depth per_child start idx : ℕ)
        → per_child ≡ words depth
        → start + 4 * (idx * words depth) ≤ x
        → x < start + 4 * (idx * words depth) + 4 * words depth
        → x < 2 ^ 32
        → child_index per_child start x ≡ idx
    same_index x depth r start idx shape low high small =
        rw shape (Covers-unique (words depth) start x idx (words_pos depth) low high small)

    -- Every address of the leaf that is found finds that leaf.
    pub look-same :
        (w x depth : ℕ) (t : Tnode depth) (start leaf first : ℕ) (lv : Leaves)
        → Shaped depth t start lv
        → start ≤ w
        → w < start + 4 * words depth
        → w < 2 ^ 32
        → look w depth t start ≡ some (leaf, first)
        → first ≤ x
        → x < first + 4 * (64 * leaf_words)
        → look x depth t start ≡ some (leaf, first)
    unfolding look
    look-same w x zero t start leaf first lv sh low high small e xlow xhigh = e
    look-same w x (suc depth) t start leaf first lv sh low high small e xlow xhigh =
        let idx = child_index t.address_words_per_child start w in
        let c = child_lem w depth _ start sh.0 low high small in
        elim (Option-cases (t.nodes idx)) [
          | inl gone ↦ absurd (ground (arith, look-null w depth t start gone))
          | inr (child, there) ↦
              let found = sym (look-child w depth t start child _ there c.begins) ∙ e in
              let shaped = (sh.2 _ c.bound child there).1 in
              let h = look-Hit w depth child _ leaf first lv shaped c.from c.below small found in
              let same =
                same_index x depth _ start idx sh.0 (omega (arith, h.inside))
                  (omega (arith, h.within)) (omega (arith, h.bounded)) in
              look-child x depth t start child _ (ap t.nodes same ∙ there)
                (ap (child_start t.address_words_per_child start) same ∙ c.begins)
              ∙ look-same w x depth child _ leaf first lv shaped c.from c.below small found xlow
                  xhigh
        ]
