-- ===== src/Extbmp/Alloc.antt =====
-- The search that allocates: it finds a leaf for every address that the bitmap can cover, it keeps
-- the shape of the tree, and it changes no bit.
use larceny.Base.{
  ℕ, zero, suc, ◌+◌, ◌*◌, ◌^◌, ◌≤◌, ◌<◌, ◌≡◌, refl, sym, ap, ◌∙◌, inl, inr, true, false, Option,
  none, some, arith, Option-cases, Bool-cases, update, update_self, update_ne, ◌==◌, ltb, leb,
  ==_iff,
}
use larceny.Bits.{test_bit-zero}
use larceny.Extbmp.{Inode, Tnode, Leaves, wrap, alloc_leaf, alloc_inode, ceildiv, cleared_leaf}
use larceny.Extbmp.Find.{
  child_index, child_start, find_leaf_calc_offset_recur, child_or_alloc, alloc_child,
}
use larceny.Extbmp.Ops.{entry_bit, bit_in_word}
use larceny.Extbmp.Index.{ceildiv_exact}
use larceny.Extbmp.Shape.{look, look-child, words, words_pos, Shaped, child_lem, look-Hit}
use larceny.Extbmp.Grow.{in_tree, Grows, Grows-trans, Grows-refl, in_tree-null, in_tree-child}

module _ (leaf_words entries depth : ℕ) (t : Inode (Tnode depth)) (lv : Leaves) where
  child_or_alloc-made :
      (i s begin per_child : ℕ) (made : Tnode depth × Leaves)
      → s ≡ begin
      → t.address_words_per_child ≡ per_child
      → t.nodes i ≡ none
      → alloc_child leaf_words entries depth per_child begin (wrap (begin + 4 * per_child)) lv
        ≡ some made
      → child_or_alloc leaf_words entries true depth t i s lv ≡ some (some made)
  unfolding child_or_alloc
  child_or_alloc-made i s begin per_child made at shape gone run =
      rw (gone, at, shape, run, child_or_alloc) refl

module _ (leaf_words entries : ℕ) where
  pub Shaped-Grows :
      (depth : ℕ) (t : Tnode depth) (start : ℕ) (lv lv' : Leaves)
      → Grows lv lv'
      → Shaped leaf_words entries depth t start lv
      → Shaped leaf_words entries depth t start lv'
  Shaped-Grows zero t start lv lv' g sh =
      (sh.0, omega (arith, g.more, sh.1), ap (λ l. l.start) (g.same t sh.1) ∙ sh.2, sh.3)
  Shaped-Grows (suc depth) t start lv lv' g sh = (
    sh.0,
    sh.1,
    λ i bound child there.
        let (small, shaped) = sh.2 i bound child there in
        (small, Shaped-Grows depth child _ lv lv' g shaped),
  )

  module _ (some_words : 0 < leaf_words) (some_entries : 0 < entries) where
    -- What a search in `t` at `start` does, from the leaves `lv`.
    pub record Finds (w depth : ℕ) (t : Tnode depth) (start : ℕ) (lv : Leaves) : Type 0 where
      pub leaf : ℕ
      pub first : ℕ
      pub tree : Tnode depth
      pub after : Leaves
      pub runs :
          find_leaf_calc_offset_recur leaf_words entries true w depth t start lv
          ≡ some (some (leaf, first), tree, after)
      pub there : look w depth tree start ≡ some (leaf, first)
      pub shaped : Shaped leaf_words entries depth tree start after
      pub grows : Grows lv after
      pub keeps :
          (x : ℕ)
          → start ≤ x
          → x < start + 4 * words leaf_words entries depth
          → x < 2 ^ 32
          → in_tree x depth tree start after ≡ in_tree x depth t start lv

    -- A new node: it has its shape, and no bit of it is set.
    record Makes (depth start : ℕ) (lv : Leaves) : Type 0 where
      node : Tnode depth
      after : Leaves
      runs :
          alloc_child leaf_words entries depth
            (words leaf_words entries depth)
            start
            (wrap (start + 4 * words leaf_words entries depth))
            lv
          ≡ some (node, after)
      shaped : Shaped leaf_words entries depth node start after
      grows : Grows lv after
      empty : (x : ℕ) → in_tree x depth node start after ≡ false

    alloc_inode_lem :
        {A : Type 0} (range start limit per_child : ℕ)
        → 0 < per_child
        → per_child * entries ≡ range
        → 0 < range
        → alloc_inode {A = A} entries range start limit
          ≡ some (record {
            start = start;
            limit = wrap limit;
            address_range_in_words = range;
            address_words_per_child = per_child;
            nodes = λ _. none;
          })
    unfolding alloc_inode
    alloc_inode_lem range start limit per_child p e q =
        let exact =
          ap (λ r. ceildiv r entries) (sym e) ∙ ceildiv_exact per_child entries some_entries in
        rw (exact, holds q, holds p, whole) refl
      where
        holds : {n : ℕ} → 0 < n → ltb 0 n ≡ true
        holds h = ground arith

        whole : leb range (per_child * entries) ≡ true
        whole = ground arith

    alloc_child-Makes :
        (depth start : ℕ) (lv : Leaves)
        → 0 < lv.brk
        → start + 4 * (64 * leaf_words) < 2 ^ 32
        → Makes depth start lv
    unfolding alloc_child alloc_leaf in_tree look
    alloc_child-Makes zero start lv pos fits =
        let leaf = cleared_leaf start (wrap (start + 4 * (64 * leaf_words))) in
        let here = update_self lv.at lv.brk leaf in
        record {
          node = lv.brk;
          after = record {
            at = update lv.at lv.brk leaf;
            brk = lv.brk + 1;
            leaf_count = lv.leaf_count + 1;
          };
          runs = ground arith;
          shaped = (ground arith, omega arith, ap (λ l. l.start) here, fits);
          grows = record {
            more = omega arith;
            same = λ other below. update_ne lv.at lv.brk other leaf (ground arith);
            blank = λ other above unlisted. elim (Bool-cases (other == lv.brk)) [
              | inl e ↦ rw e (record { no_gno = refl; no_prev = refl; no_next = refl })
              | inr e ↦ rw e unlisted
            ];
          };
          empty = λ x. ap (λ l. entry_bit l x start) here ∙ test_bit-zero (bit_in_word x start);
        }
    alloc_child-Makes (suc depth) start lv pos fits = record {
      node = record {
        start = start;
        limit = wrap (wrap (start + 4 * words leaf_words entries (suc depth)));
        address_range_in_words = words leaf_words entries (suc depth);
        address_words_per_child = words leaf_words entries depth;
        nodes = λ _. none;
      };
      after = lv;
      runs =
          rw
            (
              alloc_inode_lem {A = Tnode depth} (words leaf_words entries (suc depth)) start
                  (wrap (start + 4 * words leaf_words entries (suc depth)))
                  (words leaf_words entries depth)
                  (words_pos leaf_words entries some_words some_entries depth) refl
                  (words_pos leaf_words entries some_words some_entries (suc depth)),
              alloc_child,
            )
            refl;
      shaped = (refl, refl, λ i bound child e. absurd (ground arith));
      grows = Grows-refl lv;
      empty = λ x. refl;
    }

    pub in_tree-Grows :
        (x depth : ℕ) (t : Tnode depth) (start : ℕ) (lv lv' : Leaves)
        → Shaped leaf_words entries depth t start lv
        → Grows lv lv'
        → start ≤ x
        → x < start + 4 * words leaf_words entries depth
        → x < 2 ^ 32
        → in_tree x depth t start lv' ≡ in_tree x depth t start lv
    unfolding in_tree
    in_tree-Grows x depth t start lv lv' sh g low high small =
        elim (Option-cases (look x depth t start)) [
          | inl gone ↦ rw gone refl
          | inr ((leaf, first), there) ↦
              let h =
                look-Hit leaf_words entries some_words some_entries x depth t start leaf first lv sh
                  low high small there in
              rw there (ap (λ l. entry_bit l x first) (g.same leaf h.allocated))
        ]

    -- One level of the search, from what it does in the child `node`.
    module _ (w depth : ℕ) (t : Inode (Tnode depth)) (start : ℕ) (lv : Leaves)
        (sh : Shaped leaf_words entries (suc depth) t start lv) (low : start ≤ w)
        (high : w < start + 4 * words leaf_words entries (suc depth)) (small : w < 2 ^ 32) where
      abbrev idx : ℕ
      idx = child_index t.address_words_per_child start w

      abbrev begin : ℕ
      begin = start + 4 * (idx * words leaf_words entries depth)

      abbrev or_tree : Tnode depth → Option (Tnode depth) → Tnode depth
      or_tree s none = s
      or_tree s (some u) = u

      abbrev place : ℕ → ℕ
      place i = start + 4 * (i * words leaf_words entries depth)

      abbrev with_node : Tnode depth → Tnode (suc depth)
      with_node node = record t { nodes = update t.nodes idx (some node) }

      module _ (node : Tnode depth) (lv0 : Leaves) (g : Grows lv lv0)
          (got : child_or_alloc leaf_words entries true depth t idx
              (child_start t.address_words_per_child start idx)
              lv
            ≡ some (some (node, lv0)))
          (same : (x : ℕ)
            → child_index t.address_words_per_child start x ≡ idx
            → in_tree x depth node begin lv0 ≡ in_tree x (suc depth) t start lv)
          (f : Finds w depth node begin lv0) where
        abbrev after_Grows : Grows lv f.after
        after_Grows = Grows-trans lv lv0 f.after g f.grows

        keeps_at :
            (x : ℕ)
            → start ≤ x
            → x < start + 4 * words leaf_words entries (suc depth)
            → x < 2 ^ 32
            → in_tree x (suc depth) (with_node f.tree) start f.after
              ≡ in_tree x (suc depth) t start lv
        keeps_at x xlow xhigh xsmall =
            let at_x = child_index t.address_words_per_child start x in
            let cx =
              child_lem leaf_words entries some_words some_entries x depth _ start sh.0 xlow xhigh
                xsmall in
            elim (Bool-cases (at_x == idx)) [
              | inl e ↦
                  let at = (==_iff at_x idx).0 e in
                  in_tree-child x depth (with_node f.tree) start f.after f.tree begin
                    (ap (with_node f.tree).nodes at ∙ update_self t.nodes idx (some f.tree))
                    (cx.begins ∙ ap place at)
                  ∙ f.keeps x (rw (ap place at) at cx.from) (rw (ap place at) at cx.below) xsmall
                  ∙ same x at
              | inr e ↦
                  let other = update_ne t.nodes idx at_x (some f.tree) (ground arith) in
                  elim (Option-cases (t.nodes at_x)) [
                    | inl gone ↦
                        in_tree-null x depth (with_node f.tree) start f.after (other ∙ gone)
                        ∙ sym (in_tree-null x depth t start lv gone)
                    | inr (child, there) ↦
                        in_tree-child x depth (with_node f.tree) start f.after child _
                          (other ∙ there) cx.begins
                        ∙ in_tree-Grows x depth child _ lv f.after
                            (sh.2 at_x cx.bound child there).1 after_Grows cx.from cx.below xsmall
                        ∙ sym (in_tree-child x depth t start lv child _ there cx.begins)
                  ]
            ]

        put-Shaped :
            (i : ℕ)
            → i < entries
            → (child : Tnode depth) → update t.nodes idx (some f.tree) i ≡ some child
            → (start + 4 * (i * words leaf_words entries depth) < 2 ^ 32)
              × Shaped leaf_words entries depth child
                  (start + 4 * (i * words leaf_words entries depth))
                  f.after
        put-Shaped i bound child there = elim (Bool-cases (i == idx)) [
          | inl e ↦
              let at = (==_iff i idx).0 e in
              let nodes = (with_node f.tree).nodes in
              let is =
                ap (or_tree f.tree)
                  (sym (update_self t.nodes idx (some f.tree)) ∙ sym (ap nodes at) ∙ there) in
              let c =
                child_lem leaf_words entries some_words some_entries w depth _ start sh.0 low high
                  small in
              rw at (rw⁻¹ is (omega (arith, c.from), f.shaped))
          | inr e ↦
              let (fits, shaped) =
                sh.2 i bound child
                  (sym (update_ne t.nodes idx i (some f.tree) (ground arith)) ∙ there) in
              (fits, Shaped-Grows depth child _ lv f.after after_Grows shaped)
        ]

        level-Finds : Finds w (suc depth) t start lv
        unfolding find_leaf_calc_offset_recur
        level-Finds =
            let c =
              child_lem leaf_words entries some_words some_entries w depth _ start sh.0 low high
                small in
            record {
              leaf = f.leaf;
              first = f.first;
              tree = with_node f.tree;
              after = f.after;
              runs = rw (got, c.begins, f.runs, find_leaf_calc_offset_recur) refl;
              there =
                  look-child w depth (with_node f.tree) start f.tree begin
                    (update_self t.nodes idx (some f.tree)) c.begins
                  ∙ f.there;
              shaped = (sh.0, sh.1, λ i bound child there. put-Shaped i bound child there);
              grows = after_Grows;
              keeps = keeps_at;
            }

    -- A search that allocates finds a leaf for every address below the last leaf.
    pub find-Finds :
        (w depth : ℕ) (t : Tnode depth) (start : ℕ) (lv : Leaves)
        → 0 < lv.brk
        → Shaped leaf_words entries depth t start lv
        → start ≤ w
        → w < start + 4 * words leaf_words entries depth
        → w + 4 * (64 * leaf_words) < 2 ^ 32
        → Finds w depth t start lv
    unfolding find_leaf_calc_offset_recur look child_or_alloc
    find-Finds w zero t start lv pos sh low high fits = record {
      leaf = t;
      first = start;
      tree = t;
      after = lv;
      runs = refl;
      there = refl;
      shaped = sh;
      grows = Grows-refl lv;
      keeps = λ x l h m. refl;
    }
    find-Finds w (suc depth) t start lv pos sh low high fits =
        let per_child = t.address_words_per_child in
        let i = child_index per_child start w in
        let begin = start + 4 * (i * words leaf_words entries depth) in
        let c =
          child_lem leaf_words entries some_words some_entries w depth per_child start sh.0 low high
            (omega arith) in
        elim (Option-cases (t.nodes i)) [
          | inr (child, there) ↦
              level-Finds w depth t start lv sh low high (omega arith) child lv (Grows-refl lv)
                (rw (there, child_or_alloc) refl)
                (λ x at. sym (
                  in_tree-child x depth t start lv child begin (ap t.nodes at ∙ there)
                    (ap (child_start per_child start) at ∙ c.begins)))
                (find-Finds w depth child begin lv pos (sh.2 i c.bound child there).1 c.from c.below
                  fits)
          | inl gone ↦
              let m = alloc_child-Makes depth begin lv pos (omega (arith, c.from)) in
              level-Finds w depth t start lv sh low high (omega arith) m.node m.after m.grows
                (child_or_alloc-made leaf_words entries depth t lv i _ begin
                  (words leaf_words entries depth) (m.node, m.after) c.begins sh.0 gone m.runs)
                (λ x at. m.empty x ∙ sym (in_tree-null x depth t start lv (ap t.nodes at ∙ gone)))
                (find-Finds w depth m.node begin m.after (omega (arith, m.grows.more)) m.shaped
                  c.from c.below fits)
        ]
