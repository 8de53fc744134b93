-- ===== src/Extbmp/Whole.antt =====
-- The enumeration of a whole tree.
use native.Mathlib.Nat.{mul-le-mul_right, mul_comm}
use mathlib.Core.Path.{subst}
use larceny.Base.{
  ℕ, zero, suc, ◌+◌, ◌-◌, ◌*◌, ◌%◌, ◌^◌, ◌≤◌, ◌<◌, ◌≡◌, refl, sym, ap, ◌∙◌, ◌⊎◌, inl, inr, Bool,
  true, false, not, ◌&&◌, ◌||◌, Option, none, some, List, [], ◌++◌, arith, Option-cases, Bool-cases,
  ltb, leb, if◌then◌else◌, has,
}
use larceny.Extbmp.{Inode, Tnode, Leaves}
use larceny.Extbmp.Enumerate.{
  Request, Environment, Children, tnode_enumerate, enum_children, first_child, child_limit,
  node_limit, and_holds,
}
use larceny.Extbmp.Find.{child_index}
use larceny.Extbmp.Index.{FirstChild, ChildLimit, first_child_lem, child_limit_lem}
use larceny.Extbmp.Shape.{look, look-null, look-child, words, words_pos, Shaped, child_lem}
use larceny.Extbmp.Window.{selected, inspected}
use larceny.Extbmp.Tree.{
  Frame-Shaped, slot_elements, children_elements, children_elements-append, children-cong,
  tree_elements, place_aligned, Frame,
}
use larceny.Extbmp.Visited.{Outside-Frame, State, IsGood, StillCached, Enumerated, leaf-Enumerated}
use larceny.Extbmp.Children.{ChildrenVisited, children-Visited, slot-Frame}
use larceny.Pool.Scan.{sift}
use larceny.UremsetArray.Visit.{sift-append}
use larceny.Extbmp.Elements.{sift-none}
use larceny.Extbmp.Range.{has-children, has-tree_elements}

module _ {S : Type 0} (env : Environment) (r : Request) (scanner : ℕ → S → Bool × S)
    (leaf_words entries : ℕ) (some_words : 0 < leaf_words) (some_entries : 0 < entries)
    (in_space : r.limit_enum < 2 ^ 32) where
  abbrev sel : ℕ → S → Bool × S
  sel = selected env r scanner

  -- Where nothing is inspected the scanner sees nothing.
  none_selected :
      (xs : List ℕ) (s : S)
      → ((x : ℕ) → has x xs ≡ true → inspected r x ≡ false)
      → sift sel xs s ≡ (xs, s)
  unfolding selected
  none_selected xs s out = sift-none sel sel xs s (λ x m t. rw (out x m) refl)

  module _ (depth : ℕ) (inode : Inode (Tnode depth)) (first : ℕ)
      (st : State env r scanner leaf_words entries) (s : S) (h : Bool)
      (good : IsGood env r scanner leaf_words entries st) (scan : st.scan ≡ (s, h))
      (aligned : first % 256 ≡ 0)
      (reached : r.first_enum < first + 4 * words leaf_words entries (suc depth))
      (sh : Shaped leaf_words entries (suc depth) inode first st.ebmp.leaves)
      (recursion : (t : Tnode depth) (start : ℕ) (st : State env r scanner leaf_words entries)
          (s : S) (h : Bool)
        → IsGood env r scanner leaf_words entries st
        → st.scan ≡ (s, h)
        → start % 256 ≡ 0
        → r.first_enum < start + 4 * words leaf_words entries depth
        → Shaped leaf_words entries depth t start st.ebmp.leaves
        → Enumerated env r scanner leaf_words entries depth t start st s h
            (tnode_enumerate env r scanner depth t start st)) where
    abbrev size : ℕ
    size = words leaf_words entries depth

    abbrev counted : State env r scanner leaf_words entries
    counted = record st { nodes_enumerated = st.nodes_enumerated + 1 }

    -- nothing of the node is inspected
    untouched :
        ((x : ℕ)
          → first ≤ x
          → x < first + 4 * words leaf_words entries (suc depth)
          → inspected r x ≡ false)
        → Enumerated env r scanner leaf_words entries
            (suc depth)
            inode
            first
            st
            s
            h
            (false, inode, counted)
    untouched out =
        let nothing =
          none_selected (tree_elements leaf_words entries (suc depth) st.ebmp.leaves inode first) s
            (λ x m.
              let (low, high) =
                has-tree_elements leaf_words entries (suc depth) st.ebmp.leaves inode first x m in
              out x low high) in
        record {
          good = record {
            same_words = good.same_words;
            same_entries = good.same_entries;
            links = good.links;
            blank = good.blank;
          };
          outside = record { brk = refl; same = λ a n below o. (refl, refl) };
          shaped = sh;
          kept = sym (ap (λ t. t.0) nothing);
          scan = scan ∙ ap (λ t. (t.1, h)) (sym nothing);
          empty = λ e. ground arith;
          cache = inl (refl, refl);
          still = λ x low high small a f seen at n. seen;
        }

    abbrev at_place : ℕ → ℕ
    at_place i = first + 4 * (i * size)

    abbrev listed_in : Leaves → ℕ → ℕ → (ℕ → Option (Tnode depth)) → List ℕ
    listed_in lv n i nodes =
        children_elements (tree_elements leaf_words entries depth lv) size first n i nodes

    mono : (i k : ℕ) → i ≤ k → at_place i ≤ at_place k
    mono i k l = omega (arith, mul-le-mul_right {m = i} {n = k} size l)

    module _ (low high : ℕ) (fc : FirstChild first r.first_enum size entries low)
        (cl : ChildLimit first r.limit_enum size entries high) (short : first < r.limit_enum)
        (result : Children env r scanner (Tnode depth))
        (v : ChildrenVisited env r scanner leaf_words entries some_words some_entries depth first
          aligned recursion
          (high - low)
          low
          inode.nodes
          (ltb 0 low || ltb high entries)
          st
          s
          h
          result) where
      abbrev rounds : ℕ
      rounds = high - low

      abbrev rest : ℕ
      rest = entries - (low + rounds)

      abbrev part : Leaves → (ℕ → Option (Tnode depth)) → List ℕ × List ℕ × List ℕ
      part lv nodes = (
        listed_in lv low 0 nodes,
        listed_in lv rounds low nodes,
        listed_in lv rest (low + rounds) nodes,
      )

      zero_add : (n : ℕ) → 0 + n ≡ n
      zero_add n = omega arith

      parts :
          (lv : Leaves) (nodes : ℕ → Option (Tnode depth))
          → listed_in lv entries 0 nodes
            ≡ (part lv nodes).0 ++ ((part lv nodes).1 ++ (part lv nodes).2)
      parts lv nodes =
          let of = tree_elements leaf_words entries depth lv in
          children_elements-append of size first low (entries - low) entries 0 nodes
            (omega (arith, fc.bound))
          ∙ ap (λ l. (part lv nodes).0 ++ l)
              (ap (λ i. listed_in lv (entries - low) i nodes) (zero_add low)
                ∙ children_elements-append of size first rounds rest (entries - low) low nodes
                    (omega (arith, fc.bound, cl.bound)))

      abbrev lv : Leaves
      lv = st.ebmp.leaves

      abbrev lv' : Leaves
      lv' = result.2.ebmp.leaves

      in_or_out : (i : ℕ) → ((low ≤ i) × (i < low + rounds)) ⊎ ((i < low) ⊎ (low + rounds ≤ i))
      in_or_out i = elim (Bool-cases (ltb i low)) [
        | inl before ↦ inr (inl (ground arith))
        | inr from ↦ elim (Bool-cases (ltb i (low + rounds))) [
          | inl before ↦ inl (ground arith, ground arith)
          | inr after ↦ inr (inr (ground arith))
        ]
      ]

      child-Frame :
          (i : ℕ)
          → (i < low) ⊎ (low + rounds ≤ i)
          → Frame (at_place i) (at_place i + 4 * size) lv lv'
      child-Frame i o =
          Outside-Frame _ _ _ _ _ _
            (elim o [
              | inl before ↦ inl (omega (arith, mono (i + 1) low (omega arith)))
              | inr after ↦ inr (mono (low + rounds) i after)
            ])
            v.outside

      -- children out of the loop
      slot_same :
          (k : ℕ)
          → k < entries
          → (k < low) ⊎ (low + rounds ≤ k)
          → slot_elements (tree_elements leaf_words entries depth lv') size first k (result.0 k)
            ≡ slot_elements (tree_elements leaf_words entries depth lv) size first k (inode.nodes k)
      slot_same k bound o =
          slot-Frame env r scanner leaf_words entries some_words some_entries depth first aligned
            recursion k (inode.nodes k) (result.0 k) lv lv' (v.others k o) (child-Frame k o)
            (λ child there. (sh.2 k bound child there).1)

      same_before : (part lv' result.0).0 ≡ (part lv inode.nodes).0
      same_before =
          children-cong _ _ size first low 0 result.0 inode.nodes
            (λ k l u. slot_same k (omega (arith, fc.bound)) (inl (omega arith)))

      same_after : (part lv' result.0).2 ≡ (part lv inode.nodes).2
      same_after =
          children-cong _ _ size first rest (low + rounds) result.0 inode.nodes
            (λ k l u. slot_same k (omega (arith, fc.bound, cl.bound)) (inr l))

      in_range :
          (x n i : ℕ)
          → has x (listed_in lv n i inode.nodes) ≡ true
          → (at_place i ≤ x) × (x < at_place (i + n))
      in_range x n i m =
          has-children (tree_elements leaf_words entries depth lv) size first
            (λ child begin y m'. has-tree_elements leaf_words entries depth lv child begin y m') x n
            i inode.nodes m

      aligned_at : (i : ℕ) → at_place i % 256 ≡ 0
      aligned_at i = place_aligned leaf_words entries depth first i aligned

      out_before : (t : S) → sift sel (part lv inode.nodes).0 t ≡ ((part lv inode.nodes).0, t)
      out_before t = none_selected (part lv inode.nodes).0 t λ x m.
          let (l, u) = in_range x low 0 m in
          let last = ap at_place (zero_add low) in
          elim fc.behind [
            | inl none_skipped ↦ absurd (omega (arith, l, u, last, ap at_place none_skipped))
            | inr skipped ↦
                let below : x < at_place low = omega (arith, u, last) in
                ground (arith, aligned_at low)
          ]

      out_after : (t : S) → sift sel (part lv inode.nodes).2 t ≡ ((part lv inode.nodes).2, t)
      out_after t = none_selected (part lv inode.nodes).2 t λ x m.
          let (l, u) = in_range x rest (low + rounds) m in
          elim cl.ahead [
            | inl all ↦
                let full : low + rounds + rest ≡ low + rounds = omega (arith, fc.bound) in
                absurd (omega (arith, l, u, ap at_place full))
            | inr skipped ↦
                let above : at_place high ≤ x =
                  omega (arith, l, mono high (low + rounds) (omega arith)) in
                ground (arith, aligned_at high)
          ]

      sift_parts : sift sel (listed_in lv entries 0 inode.nodes) s ≡ (
        (part lv inode.nodes).0
            ++ ((sift sel (part lv inode.nodes).1 s).0 ++ (part lv inode.nodes).2),
        (sift sel (part lv inode.nodes).1 s).1,
      )
      sift_parts =
          rw
            (
              parts lv inode.nodes,
              sift-append sel (part lv inode.nodes).0
                  ((part lv inode.nodes).1 ++ (part lv inode.nodes).2) s,
              out_before s,
              sift-append sel (part lv inode.nodes).1 (part lv inode.nodes).2 s,
              out_after (sift sel (part lv inode.nodes).1 s).1,
            )
            refl

      kept_all :
          listed_in lv' entries 0 result.0 ≡ (sift sel (listed_in lv entries 0 inode.nodes) s).0
      kept_all =
          parts lv' result.0
          ∙ rw (same_before, v.kept, same_after) refl
          ∙ ap (λ t. t.0) (sym sift_parts)

      no_children :
          (n i : ℕ)
          → ((k : ℕ) → i ≤ k → k < i + n → result.0 k ≡ none)
          → listed_in lv' n i result.0 ≡ []
      unfolding children_elements slot_elements
      no_children zero i gone = refl
      no_children (suc n) i gone =
          rw (gone i (omega arith) (omega arith), slot_elements)
            (no_children n (i + 1) (λ k l u. gone k (omega arith) (omega arith)))

      nodes-Shaped :
          (i : ℕ)
          → i < entries
          → (child : Tnode depth) → result.0 i ≡ some child
          → (at_place i < 2 ^ 32) × Shaped leaf_words entries depth child (at_place i) lv'
      nodes-Shaped i bound child there = elim (in_or_out i) [
        | inl (from, to) ↦ let (small, shaped) = v.shaped i from to child there in (small.0, shaped)
        | inr o ↦
            let (small, shaped) = sh.2 i bound child (sym (v.others i o) ∙ there) in
            (
              small,
              Frame-Shaped leaf_words entries some_words some_entries depth child (at_place i) lv
                  lv' (child-Frame i o) shaped,
            )
      ]

      still_there :
          (x : ℕ)
          → first ≤ x
          → x < first + 4 * words leaf_words entries (suc depth)
          → x < 2 ^ 32
          → StillCached env r scanner leaf_words entries result.2.ebmp
              (look x (suc depth) inode first)
              (look x (suc depth) (record inode { nodes = result.0 }) first)
      still_there x l u fits a f seen at n =
          let k = child_index inode.address_words_per_child first x in
          let t' : Inode (Tnode depth) = record inode { nodes = result.0 } in
          let c =
            child_lem leaf_words entries some_words some_entries x depth _ first sh.0 l u fits in
          elim (Option-cases (inode.nodes k)) [
            | inl gone ↦ absurd (ground (arith, sym (look-null x depth inode first gone) ∙ seen))
            | inr (child, there) ↦
                let seen' =
                  sym (look-child x depth inode first child (at_place k) there c.begins) ∙ seen in
                elim (in_or_out k) [
                  | inl (from, to) ↦
                      let (child', there', seen'') =
                        v.still k from to child there x c.from c.below fits a f seen' at n in
                      look-child x depth t' first child' (at_place k) there' c.begins ∙ seen''
                  | inr o ↦
                      look-child x depth t' first child (at_place k) (v.others k o ∙ there) c.begins
                      ∙ seen'
                ]
          ]

      touched :
          Enumerated env r scanner leaf_words entries
            (suc depth)
            inode
            first
            st
            s
            h
            (not result.1, record inode { nodes = result.0 }, result.2)
      unfolding tree_elements
      touched = record {
        good = v.good;
        outside = record {
          brk = v.outside.brk;
          same = λ a n below o. v.outside.same a n below (elim o [
            | inl before ↦ inl (omega arith)
            | inr after ↦ inr (
                omega (
                  arith,
                  mono (low + rounds) entries (omega (arith, fc.bound, cl.bound)),
                  mul_comm entries size,
                ))
          ]);
        };
        shaped = (sh.0, sh.1, nodes-Shaped);
        kept = kept_all;
        scan = v.scan ∙ ap (λ t. (t.1, h)) (sym sift_parts);
        empty = λ b.
            let (every, gone) = v.empty (ground arith) in
            (
              no_children entries 0 (λ k l u. gone k (ground arith) (ground arith)),
              λ i bound. gone i (ground arith) (ground arith),
            );
        cache = v.cache;
        still = still_there;
      }

    -- what the code computes at an inner node, from the two sizes that it reads
    abbrev node_result : ℕ → ℕ → Bool × Tnode (suc depth) × State env r scanner leaf_words entries
    node_result per_child count =
        let low = first_child env r scanner per_child first in
        let high =
          child_limit env r scanner per_child count first
            (node_limit env r scanner per_child count first) in
        let ready = and_holds env r scanner (ltb low count && leb high count) counted in
        let (nodes, found, st') =
          enum_children env r scanner depth (tnode_enumerate env r scanner depth) per_child first
            (high - low) low (inode.nodes, ltb 0 low || ltb high count, ready) in
        if leb r.limit_enum first
        then (false, inode, counted)
        else if ltb (first + 4 * inode.address_range_in_words) r.first_enum
        then (false, inode, counted)
        else (not found, record inode { nodes = nodes }, st')

    node_sizes :
        Enumerated env r scanner leaf_words entries
          (suc depth)
          inode
          first
          st
          s
          h
          (node_result size entries)
    node_sizes = elim (Bool-cases (leb r.limit_enum first)) [
      | inl past ↦ rw past (untouched (λ x low high. ground arith))
      | inr meets ↦
          let positive = words_pos leaf_words entries some_words some_entries depth in
          let inside : ltb (first + 4 * inode.address_range_in_words) r.first_enum ≡ false =
            ground (arith, sh.1) in
          let low = first_child env r scanner size first in
          let limit = node_limit env r scanner size entries first in
          let high = child_limit env r scanner size entries first limit in
          let fc = first_child_lem first r.first_enum size entries positive some_entries reached in
          let cl =
            child_limit_lem first r.limit_enum limit size entries positive (ground arith)
              (omega arith) in
          let ready = and_holds env r scanner (ltb low entries && leb high entries) counted in
          let flag : (h && (ltb low entries && leb high entries)) ≡ h =
            ground (arith, fc.bound, cl.bound) in
          let ready_scan =
            ap (λ t. (t.0, t.1 && (ltb low entries && leb high entries))) scan
            ∙ ap (λ b. (s, b)) flag in
          let v =
            children-Visited env r scanner leaf_words entries some_words some_entries depth first
              aligned recursion (high - low) low inode.nodes (ltb 0 low || ltb high entries) ready s
              h
              (record {
                same_words = good.same_words;
                same_entries = good.same_entries;
                links = good.links;
                blank = good.blank;
              })
              ready_scan
              (λ k l u child there.
                let (small, shaped) = sh.2 k (omega (arith, fc.bound, cl.bound)) child there in
                ((small, omega (arith, fc.ahead, mono low k l)), shaped)) in
          rw (meets, inside)
            (touched low high fc cl (ground arith) _ (record {
              good = v.good;
              outside = v.outside;
              others = v.others;
              shaped = v.shaped;
              kept = v.kept;
              scan = v.scan;
              empty = v.empty;
              cache = v.cache;
              still = v.still;
            }))
    ]

    node-Enumerated :
        Enumerated env r scanner leaf_words entries
          (suc depth)
          inode
          first
          st
          s
          h
          (tnode_enumerate env r scanner (suc depth) inode first st)
    unfolding tnode_enumerate
    node-Enumerated =
        subst
          (λ n.
            Enumerated env r scanner leaf_words entries (suc depth) inode first st s h
              (node_result inode.address_words_per_child n))
          (sym good.same_entries)
          (subst
            (λ n.
              Enumerated env r scanner leaf_words entries (suc depth) inode first st s h
                (node_result n entries))
            (sym sh.0) node_sizes)

  -- The enumeration of a tree: the scanner sees each address that the request selects once, in
  -- increasing order, and exactly the addresses that it accepts or is not shown stay.
  pub tnode_enumerate_lem :
      (depth : ℕ) (t : Tnode depth) (start : ℕ) (st : State env r scanner leaf_words entries)
      (s : S) (h : Bool)
      → IsGood env r scanner leaf_words entries st
      → st.scan ≡ (s, h)
      → start % 256 ≡ 0
      → r.first_enum < start + 4 * words leaf_words entries depth
      → Shaped leaf_words entries depth t start st.ebmp.leaves
      → Enumerated env r scanner leaf_words entries depth t start st s h
          (tnode_enumerate env r scanner depth t start st)
  tnode_enumerate_lem zero t start st s h good scan aligned reached sh =
      leaf-Enumerated env r scanner leaf_words entries some_words some_entries t start st s h good
        scan aligned sh
  tnode_enumerate_lem (suc depth) t start st s h good scan aligned reached sh =
      node-Enumerated depth t start st s h good scan aligned reached sh (tnode_enumerate_lem depth)
