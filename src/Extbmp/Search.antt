-- ===== src/Extbmp/Search.antt =====
-- The search of an extensible bitmap with its cache: it answers as the tree does, it keeps the
-- invariant, and the set stays the same.
use mathlib.Core.Path.{subst, fun_ext}
use larceny.Base.{
  ℕ, ◌≡◌, refl, sym, ap, ◌∙◌, inl, inr, true, false, Option, none, some, arith, Option-cases,
  Bool-cases, ltb,
}
use larceny.Extbmp.{Leaf, Leaves, Extbmp, leaf_wordaddr_lim}
use larceny.Extbmp.Find.{find_leaf_calc_offset, cached}
use larceny.Extbmp.Shape.{Hit, look-Hit, look-same}
use larceny.Extbmp.Alloc.{find-Finds}
use larceny.Extbmp.Linked.{Linked}
use larceny.Extbmp.Valid.{gnos, prevs, nexts, IsValid, Address, contains, find_tree, find_recur_lem}
use larceny.Extbmp.Grow.{IsUnlisted, Grows}

abbrev read : {A : Type 0} → (Leaf → A) → Leaves → ℕ → A
read field lv leaf = field (lv.at leaf)

-- What is found, and the bitmap after the search.
pub record Searched (e : Extbmp) (w : ℕ) (found : Option (ℕ × ℕ)) (e' : Extbmp) : Type 0 where
  pub valid : IsValid e'
  pub there : find_tree e' w ≡ found
  pub keeps : (x : ℕ) → Address e x → contains e' x ≡ contains e x
  pub size : e'.leaf_words ≡ e.leaf_words

module _ (e : Extbmp) (v : IsValid e) (w : ℕ) (a : Address e w) where
  abbrev with_cache : ℕ → ℕ → Extbmp
  with_cache leaf first = record e { mru_leaf = leaf; mru_first = first }

  pub find_tree-Hit :
      (leaf first : ℕ)
      → find_tree e w ≡ some (leaf, first)
      → Hit e.leaf_words e.entries_per_inode w e.depth 0 leaf first e.leaves
  find_tree-Hit leaf first there =
      look-Hit e.leaf_words e.entries_per_inode v.some_words v.some_entries w e.depth e.tree 0 leaf
        first e.leaves v.shaped (omega arith) (omega (arith, v.covers)) (omega arith) there

  -- The cache answers as the tree.
  cached_lem : cached e w ≡ true → find_tree e w ≡ some (e.mru_leaf, e.mru_first)
  unfolding leaf_wordaddr_lim
  cached_lem hit = elim v.cache [
    | inl empty ↦ absurd (ground arith)
    | inr (bounded, coherent) ↦ coherent w (ground arith) (ground arith)
  ]

  new_cache :
      (leaf first : ℕ) → find_tree e w ≡ some (leaf, first) → IsValid (with_cache leaf first)
  new_cache leaf first there =
      let h = find_tree-Hit leaf first there in
      record {
        some_words = v.some_words;
        some_entries = v.some_entries;
        covers = v.covers;
        brk_pos = v.brk_pos;
        shaped = v.shaped;
        cache = inr (
          h.bounded,
          λ x low high.
              look-same e.leaf_words e.entries_per_inode v.some_words v.some_entries w x e.depth
                e.tree 0 leaf first e.leaves v.shaped (omega arith) (omega (arith, v.covers))
                (omega arith) there low high,
        );
        blank = v.blank;
        linked = v.linked;
      }

  -- The search that allocates nothing.
  pub find_fail_lem :
      (e' : Extbmp) × (find_leaf_calc_offset e w false ≡ some (find_tree e w, e'))
      × Searched e w (find_tree e w) e'
  unfolding find_leaf_calc_offset contains
  find_fail_lem =
      let run = find_recur_lem e.leaf_words e.entries_per_inode w e.depth e.tree 0 e.leaves in
      elim (Bool-cases (cached e w)) [
        | inl hit ↦ (
          e,
          rw (hit, cached_lem hit) refl,
          record { valid = v; there = refl; keeps = λ x b. refl; size = refl },
        )
        | inr miss ↦ elim (Option-cases (find_tree e w)) [
          | inl gone ↦ (
            e,
            rw (miss, run, gone) refl,
            record { valid = v; there = refl; keeps = λ x b. refl; size = refl },
          )
          | inr ((leaf, first), there) ↦ (
            with_cache leaf first,
            rw (miss, run, there) refl,
            record {
              valid = new_cache leaf first there;
              there = refl;
              keeps = λ x b. refl;
              size = refl;
            },
          )
        ]
      ]

  -- New leaves are on no list.
  module _ (lv' : Leaves) (g : Grows e.leaves lv') where
    same_links :
        {A : Type 0} (field : Leaf → A) (blank : A)
        → ((l : Leaf) → IsUnlisted l → field l ≡ blank)
        → read field e.leaves ≡ read field lv'
    same_links field blank reads = fun_ext λ leaf. elim (Bool-cases (ltb leaf e.leaves.brk)) [
      | inl old ↦ sym (ap field (g.same leaf (ground arith)))
      | inr new ↦
          let unlisted = v.blank leaf (ground arith) in
          reads (e.leaves.at leaf) unlisted
          ∙ sym (reads (lv'.at leaf) (g.blank leaf (ground arith) unlisted))
    ]

    Linked-Grows : Linked (gnos lv') (prevs lv') (nexts lv') e.gno_to_leaf
    Linked-Grows =
        let head = e.gno_to_leaf in
        subst (λ x. Linked x (prevs lv') (nexts lv') head)
          (same_links (λ l. l.gno) none (λ l u. u.no_gno))
          (subst (λ x. Linked (gnos e.leaves) x (nexts lv') head)
            (same_links (λ l. l.prev_for_gno) 0 (λ l u. u.no_prev))
            (subst (λ x. Linked (gnos e.leaves) (prevs e.leaves) x head)
              (same_links (λ l. l.next_for_gno) 0 (λ l u. u.no_next)) v.linked))

  -- For an address that a valid bitmap can hold, the search that allocates finds a leaf, from the cache
  -- or from the tree. The bitmap is valid afterwards, its tree has the leaf for the address, and it
  -- contains what it contained before.
  pub find_alloc_lem :
      (e' : Extbmp) × (leaf : ℕ) × (first : ℕ) × (find_leaf_calc_offset e w true
        ≡ some (some (leaf, first), e'))
      × Searched e w (some (leaf, first)) e'
  unfolding find_leaf_calc_offset contains
  find_alloc_lem = elim (Bool-cases (cached e w)) [
    | inl hit ↦ (
      e,
      e.mru_leaf,
      e.mru_first,
      rw hit refl,
      record { valid = v; there = cached_lem hit; keeps = λ x b. refl; size = refl },
    )
    | inr miss ↦
        let f =
          find-Finds e.leaf_words e.entries_per_inode v.some_words v.some_entries w e.depth e.tree 0
            e.leaves v.brk_pos v.shaped (omega arith) (omega (arith, v.covers)) a.1 in
        let h =
          look-Hit e.leaf_words e.entries_per_inode v.some_words v.some_entries w e.depth f.tree 0
            f.leaf f.first f.after f.shaped (omega arith) (omega (arith, v.covers)) (omega arith)
            f.there in
        (
          record e { tree = f.tree; leaves = f.after; mru_leaf = f.leaf; mru_first = f.first },
          f.leaf,
          f.first,
          rw (miss, f.runs) refl,
          record {
            valid = record {
              some_words = v.some_words;
              some_entries = v.some_entries;
              covers = v.covers;
              brk_pos = omega (arith, v.brk_pos, f.grows.more);
              shaped = f.shaped;
              cache = inr (
                h.bounded,
                λ x low high.
                    look-same e.leaf_words e.entries_per_inode v.some_words v.some_entries w x
                      e.depth f.tree 0 f.leaf f.first f.after f.shaped (omega arith)
                      (omega (arith, v.covers)) (omega arith) f.there low high,
              );
              blank = λ leaf above.
                  f.grows.blank leaf (omega (arith, f.grows.more))
                    (v.blank leaf (omega (arith, f.grows.more)));
              linked = Linked-Grows f.after f.grows;
            };
            there = f.there;
            keeps =
                λ x b. f.keeps x (omega arith) (omega (arith, v.covers, b.1)) (omega (arith, b.1));
            size = refl;
          },
        )
  ]
