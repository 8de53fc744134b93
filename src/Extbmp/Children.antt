-- ===== src/Extbmp/Children.antt =====
-- The loop over the children of a node.
use native.Mathlib.Nat.{mul-le-mul_right}
use mathlib.Core.List.{append-nil}
use larceny.Base.{
  ℕ, zero, suc, ◌+◌, ◌*◌, ◌%◌, ◌^◌, ◌≤◌, ◌<◌, ◌≡◌, ◌≢◌, refl, sym, ap, ◌∙◌, ◌⊎◌, inl, inr, Bool,
  true, false, Option, none, some, List, [], arith, Option-cases, Bool-cases, update, update_self,
  update_ne, ◌==◌, ==_iff,
}
use larceny.Extbmp.{Tnode, Leaves, Extbmp, wrap}
use larceny.Extbmp.Enumerate.{
  Request, Environment, Children, tnode_enumerate, enum_child, enum_children, free_node,
}
use larceny.Extbmp.Shape.{look, look-null, words, Shaped, child_lem}
use larceny.Extbmp.Window.{selected}
use larceny.Extbmp.Tree.{
  slot_elements, children_elements, children-cong, tree_elements, Frame, Frame-Shaped,
  Frame-elements, place_aligned,
}
use larceny.Extbmp.Free.{free_leaf-Frees}
use larceny.Extbmp.Visited.{
  Outside, Outside-Frame, Outside-trans, CacheOf, State, IsGood, IsBare, Enumerated,
}
use larceny.Pool.Scan.{sift}
use larceny.UremsetArray.Visit.{sift-append}

Outside-both :
    (low high : ℕ) (a b c : Leaves)
    → Outside low high a b
    → Outside low high b c
    → Outside low high a c
Outside-both low high a b c f g = record {
  brk = g.brk ∙ f.brk;
  same = λ x n below out.
      let one = f.same x n below out in
      let two =
        g.same x n (omega (arith, f.brk))
          (elim out [ inl e ↦ inl (omega (arith, one.1)) | inr e ↦ inr (omega (arith, one.1)) ]) in
      (two.0 ∙ one.0, two.1 ∙ one.1);
}

CacheOf-trans : (a b c : Extbmp) → CacheOf a b → CacheOf b c → CacheOf a c
CacheOf-trans a b c f g = elim g [
  | inr e ↦ inr e
  | inl same ↦ elim f [
    | inr e ↦ inr (same.0 ∙ e)
    | inl before ↦ inl (same.0 ∙ before.0, same.1 ∙ before.1)
  ]
]

-- A leaf that the cache has now, it had before.
CacheOf-back :
    (a b : Extbmp) (leaf : ℕ) → CacheOf a b → b.mru_leaf ≡ leaf → leaf ≢ 0 → a.mru_leaf ≡ leaf
CacheOf-back a b leaf c at n = elim c [
  | inl same ↦ sym same.0 ∙ at
  | inr gone ↦ absurd (n (sym at ∙ gone))
]

module _ {S : Type 0} (env : Environment) (r : Request) (scanner : ℕ → S → Bool × S)
    (leaf_words entries : ℕ) (some_words : 0 < leaf_words) (some_entries : 0 < entries) where
  abbrev pub Good : State env r scanner leaf_words entries → Type 0
  Good st = IsGood env r scanner leaf_words entries st

  -- What freeing the root of a tree without elements does.
  record NodeFreed (depth : ℕ) (t : Tnode depth) (start : ℕ)
      (st st' : State env r scanner leaf_words entries) : Type 0 where
    good : Good st'
    outside :
        Outside start (start + 4 * words leaf_words entries depth) st.ebmp.leaves st'.ebmp.leaves
    scan : st'.scan ≡ st.scan
    cache : CacheOf st.ebmp st'.ebmp
    forgotten :
        (x : ℕ)
        → start ≤ x
        → x < start + 4 * words leaf_words entries depth
        → x < 2 ^ 32
        → (a f : ℕ) → look x depth t start ≡ some (a, f)
        → st'.ebmp.mru_leaf ≡ a
        → a ≢ 0
        → ⊥

  free_node-NodeFreed :
      (depth : ℕ) (t : Tnode depth) (start : ℕ) (st : State env r scanner leaf_words entries)
      → Good st
      → Shaped leaf_words entries depth t start st.ebmp.leaves
      → IsBare env r scanner leaf_words entries depth t start
      → NodeFreed depth t start st (free_node env r scanner depth t st)
  unfolding look
  free_node-NodeFreed zero t start st g sh bare =
      let f = free_leaf-Frees st.ebmp g.links g.blank t sh.0 sh.1 in
      record {
        good = record {
          same_words = f.sizes.0 ∙ g.same_words;
          same_entries = f.sizes.1 ∙ g.same_entries;
          links = f.links;
          blank = f.blank;
        };
        outside = record {
          brk = f.brk;
          same = λ a n below out.
              f.others a (λ at. ground (arith, sh.2, ap (λ l. (st.ebmp.leaves.at l).start) at));
        };
        scan = refl;
        cache = elim f.cache [ inl c ↦ inl (c.0, c.1) | inr c ↦ inr c ];
        forgotten = λ x low high small a f' there at n.
            let is : t ≡ a = ground (arith, there) in
            elim f.cache [ inl c ↦ c.2 (sym c.0 ∙ at ∙ sym is) | inr z ↦ n (sym at ∙ z) ];
      }
  free_node-NodeFreed (suc depth) t start st g sh bare = record {
    good = g;
    outside = record { brk = refl; same = λ a n below out. (refl, refl) };
    scan = refl;
    cache = inl (refl, refl);
    forgotten = λ x low high small a f there at n.
        let c =
          child_lem leaf_words entries some_words some_entries x depth _ start sh.0 low high
            small in
        ground (arith, sym (look-null x depth t start (bare _ c.bound)) ∙ there);
  }

  -- One level of the tree: the recursion is right in the children.
  module _ (depth : ℕ) (first : ℕ) (aligned : first % 256 ≡ 0)
      (recursion : (t : Tnode depth) (start : ℕ) (st : State env r scanner leaf_words entries)
          (s : S) (h : Bool)
        → Good st
        → st.scan ≡ (s, h)
        → start % 256 ≡ 0
        → r.first_enum < start + 4 * words leaf_words entries depth
        → Shaped leaf_words entries depth t start st.ebmp.leaves
        → Enumerated env r scanner leaf_words entries depth t start st s h
            (tnode_enumerate env r scanner depth t start st)) where
    abbrev pub size : ℕ
    size = words leaf_words entries depth

    abbrev pub place : ℕ → ℕ
    place i = first + 4 * (i * size)

    -- the child begins in the address space and ends after the begin of the request
    abbrev pub Fits : ℕ → Type 0
    Fits k = (place k < 2 ^ 32) × (r.first_enum < place k + 4 * size)

    abbrev pub elements_in : Leaves → Tnode depth → ℕ → List ℕ
    elements_in lv = tree_elements leaf_words entries depth lv

    abbrev pub listed : Leaves → ℕ → ℕ → (ℕ → Option (Tnode depth)) → List ℕ
    listed lv n i nodes = children_elements (elements_in lv) size first n i nodes

    -- the children from `i` on have their shapes
    abbrev pub ShapedFrom : ℕ → ℕ → (ℕ → Option (Tnode depth)) → Leaves → Type 0
    ShapedFrom n i nodes lv =
        (k : ℕ)
        → i ≤ k
        → k < i + n
        → (child : Tnode depth) → nodes k ≡ some child
        → Fits k × Shaped leaf_words entries depth child (place k) lv

    abbrev pub sel : ℕ → S → Bool × S
    sel = selected env r scanner

    pub record ChildrenVisited (n i : ℕ) (nodes : ℕ → Option (Tnode depth)) (found : Bool)
        (st : State env r scanner leaf_words entries) (s : S) (h : Bool)
        (result : Children env r scanner (Tnode depth)) : Type 0 where
      pub good : Good result.2
      pub outside : Outside (place i) (place (i + n)) st.ebmp.leaves result.2.ebmp.leaves
      pub others : (k : ℕ) → (k < i) ⊎ (i + n ≤ k) → result.0 k ≡ nodes k
      pub shaped : ShapedFrom n i result.0 result.2.ebmp.leaves
      pub kept :
          listed result.2.ebmp.leaves n i result.0
          ≡ (sift sel (listed st.ebmp.leaves n i nodes) s).0
      pub scan : result.2.scan ≡ ((sift sel (listed st.ebmp.leaves n i nodes) s).1, h)
      pub empty :
          result.1 ≡ false → (found ≡ false) × ((k : ℕ) → i ≤ k → k < i + n → result.0 k ≡ none)
      pub cache : CacheOf st.ebmp result.2.ebmp
      pub still :
          (k : ℕ)
          → i ≤ k
          → k < i + n
          → (child : Tnode depth) → nodes k ≡ some child
          → (x : ℕ) → place k ≤ x
          → x < place k + 4 * size
          → x < 2 ^ 32
          → (a f : ℕ) → look x depth child (place k) ≡ some (a, f)
          → result.2.ebmp.mru_leaf ≡ a
          → a ≢ 0
          → (child' : Tnode depth) × (result.0 k ≡ some child')
            × (look x depth child' (place k) ≡ some (a, f))

    abbrev one : ℕ → Children env r scanner (Tnode depth) → Children env r scanner (Tnode depth)
    one i c = enum_child env r scanner depth (tnode_enumerate env r scanner depth) size first i c

    place_suc : (i : ℕ) → place (i + 1) ≡ place i + 4 * size
    place_suc i = omega arith

    abbrev slot : Leaves → ℕ → Option (Tnode depth) → List ℕ
    slot lv i o = slot_elements (elements_in lv) size first i o

    single :
        (lv : Leaves) (i : ℕ) (nodes : ℕ → Option (Tnode depth))
        → listed lv 1 i nodes ≡ slot lv i (nodes i)
    unfolding children_elements
    single lv i nodes = append-nil (slot_elements (elements_in lv) size first i (nodes i))

    slot-some :
        (lv : Leaves) (i : ℕ) (o : Option (Tnode depth)) (child : Tnode depth)
        → o ≡ some child
        → slot lv i o ≡ elements_in lv child (place i)
    unfolding slot_elements
    slot-some lv i o child e = ap (slot_elements (elements_in lv) size first i) e

    slot-none : (lv : Leaves) (i : ℕ) (o : Option (Tnode depth)) → o ≡ none → slot lv i o ≡ []
    unfolding slot_elements
    slot-none lv i o e = ap (slot_elements (elements_in lv) size first i) e

    abbrev or_tree : Tnode depth → Option (Tnode depth) → Tnode depth
    or_tree t none = t
    or_tree t (some u) = u

    at_one : (i k : ℕ) → i ≤ k → k < i + 1 → k ≡ i
    at_one i k l h = omega arith

    -- The three cases of one child.
    module _ (i : ℕ) (nodes : ℕ → Option (Tnode depth)) (found : Bool)
        (st : State env r scanner leaf_words entries) (s : S) (h : Bool) (good : Good st)
        (scan : st.scan ≡ (s, h)) where
      no_child : nodes i ≡ none → ChildrenVisited 1 i nodes found st s h (nodes, found, st)
      unfolding sift
      no_child gone =
          let nothing = single st.ebmp.leaves i nodes ∙ slot-none st.ebmp.leaves i (nodes i) gone in
          record {
            good = good;
            outside = record { brk = refl; same = λ a n below out. (refl, refl) };
            others = λ k o. refl;
            shaped = λ k l u child there.
                absurd (ground (arith, sym (ap nodes (at_one i k l u) ∙ gone) ∙ there));
            kept = rw nothing refl;
            scan = rw nothing scan;
            empty = λ e. (e, λ k l u. ap nodes (at_one i k l u) ∙ gone);
            cache = inl (refl, refl);
            still = λ k l u child there x low high fits a f seen at n. (child, there, seen);
          }

      module _ (child : Tnode depth) (there : nodes i ≡ some child) (small : Fits i)
          (sh : Shaped leaf_words entries depth child (place i) st.ebmp.leaves) where
        abbrev result : Bool × Tnode depth × State env r scanner leaf_words entries
        result = tnode_enumerate env r scanner depth child (place i) st

        abbrev e : Enumerated env r scanner leaf_words entries depth child (place i) st s h result
        e =
            recursion child (place i) st s h good scan
              (place_aligned leaf_words entries depth first i aligned) small.1 sh

        before : listed st.ebmp.leaves 1 i nodes ≡ elements_in st.ebmp.leaves child (place i)
        before = single st.ebmp.leaves i nodes ∙ slot-some st.ebmp.leaves i (nodes i) child there

        child_kept :
            ChildrenVisited 1 i nodes found st s h (update nodes i (some result.1), true, result.2)
        child_kept =
            let nodes' = update nodes i (some result.1) in
            let here = update_self nodes i (some result.1) in
            let same =
              single result.2.ebmp.leaves i nodes'
              ∙ slot-some result.2.ebmp.leaves i (nodes' i) result.1 here in
            record {
              good = e.good;
              outside = rw (place_suc i) e.outside;
              others = λ k o. update_ne nodes i k (some result.1) (ground arith);
              shaped = λ k l u c at.
                  let q = at_one i k l u in
                  let is = ap (or_tree result.1) (sym here ∙ sym (ap nodes' q) ∙ at) in
                  rw q (rw⁻¹ is (small, e.shaped));
              kept = same ∙ e.kept ∙ ap (λ l. (sift sel l s).0) (sym before);
              scan = e.scan ∙ ap (λ l. ((sift sel l s).1, h)) (sym before);
              empty = λ b. ground arith;
              cache = e.cache;
              still = λ k l u c at x low high fits a f seen cached n.
                  let q = at_one i k l u in
                  let is = ap (or_tree child) (sym there ∙ sym (ap nodes q) ∙ at) in
                  let found_before =
                    ap (λ t. look x depth t (place i)) is
                    ∙ ap (λ j. look x depth c (place j)) (sym q)
                    ∙ seen in
                  let low' : place i ≤ x = omega (arith, low, ap place q) in
                  let high' : x < place i + 4 * size = omega (arith, high, ap place q) in
                  (
                    result.1,
                    ap nodes' q ∙ here,
                    ap (λ j. look x depth result.1 (place j)) q
                        ∙ e.still x low' high' fits a f found_before cached n,
                  );
            }

        child_freed :
            result.0 ≡ true
            → ChildrenVisited 1 i nodes found st s h
                (update nodes i none, found, free_node env r scanner depth result.1 result.2)
        child_freed bare =
            let nodes' = update nodes i none in
            let here = update_self nodes i none in
            let after = free_node env r scanner depth result.1 result.2 in
            let fr =
              free_node-NodeFreed depth result.1 (place i) result.2 e.good e.shaped
                (e.empty bare).1 in
            let nothing =
              single after.ebmp.leaves i nodes' ∙ slot-none after.ebmp.leaves i (nodes' i) here in
            record {
              good = fr.good;
              outside = rw (place_suc i) (Outside-both _ _ _ _ _ e.outside fr.outside);
              others = λ k o. update_ne nodes i k none (ground arith);
              shaped = λ k l u c at.
                  absurd (ground (arith, sym (ap nodes' (at_one i k l u) ∙ here) ∙ at));
              kept =
                  nothing ∙ sym (e.empty bare).0 ∙ e.kept ∙ ap (λ l. (sift sel l s).0) (sym before);
              scan = fr.scan ∙ e.scan ∙ ap (λ l. ((sift sel l s).1, h)) (sym before);
              empty = λ b. (b, λ k l u. ap nodes' (at_one i k l u) ∙ here);
              cache = CacheOf-trans st.ebmp result.2.ebmp after.ebmp e.cache fr.cache;
              still = λ k l u c at x low high fits a f seen cached n.
                  let q = at_one i k l u in
                  let is = ap (or_tree child) (sym there ∙ sym (ap nodes q) ∙ at) in
                  let found_before =
                    ap (λ t. look x depth t (place i)) is
                    ∙ ap (λ j. look x depth c (place j)) (sym q)
                    ∙ seen in
                  let low' : place i ≤ x = omega (arith, low, ap place q) in
                  let high' : x < place i + 4 * size = omega (arith, high, ap place q) in
                  let held = CacheOf-back result.2.ebmp after.ebmp a fr.cache cached n in
                  absurd (
                    fr.forgotten x low' high' fits a f
                      (e.still x low' high' fits a f found_before held n) cached n);
            }

    one-ChildrenVisited :
        (i : ℕ) (nodes : ℕ → Option (Tnode depth)) (found : Bool)
        (st : State env r scanner leaf_words entries) (s : S) (h : Bool)
        → Good st
        → st.scan ≡ (s, h)
        → ShapedFrom 1 i nodes st.ebmp.leaves
        → ChildrenVisited 1 i nodes found st s h (one i (nodes, found, st))
    one-ChildrenVisited i nodes found st s h good scan shaped = elim (Option-cases (nodes i)) [
      | inl gone ↦ rw gone (no_child i nodes found st s h good scan gone)
      | inr (child, there) ↦
          let (small, sh) = shaped i (omega arith) (omega arith) child there in
          let fits : wrap (place i) ≡ place i = omega (arith, small.0) in
          elim (Bool-cases (tnode_enumerate env r scanner depth child (place i) st).0) [
            | inl bare ↦
                rw (there, fits, bare)
                  (child_freed i nodes found st s h good scan child there small sh bare)
            | inr full ↦
                rw (there, fits, full)
                  (child_kept i nodes found st s h good scan child there small sh)
          ]
    ]

    ShapedFrom-after :
        (n i j : ℕ) (nodes nodes' : ℕ → Option (Tnode depth)) (lv lv' : Leaves)
        → ((k : ℕ) → i ≤ k → nodes' k ≡ nodes k)
        → Outside (place j) (place i) lv lv'
        → ShapedFrom n i nodes lv
        → ShapedFrom n i nodes' lv'
    ShapedFrom-after n i j nodes nodes' lv lv' same out shaped k l u child there =
        let (small, sh) = shaped k l u child (sym (same k l) ∙ there) in
        let further = mul-le-mul_right {m = i} {n = k} size l in
        (
          small,
          Frame-Shaped leaf_words entries some_words some_entries depth child (place k) lv lv'
              (Outside-Frame (place j) (place i) (place k) (place k + 4 * size) lv lv'
                (inr (omega (arith, further))) out)
              sh,
        )

    pub slot-Frame :
        (k : ℕ) (o o' : Option (Tnode depth)) (lv lv' : Leaves)
        → o' ≡ o
        → Frame (place k) (place k + 4 * size) lv lv'
        → ((child : Tnode depth)
            → o ≡ some child
            → Shaped leaf_words entries depth child (place k) lv)
        → slot lv' k o' ≡ slot lv k o
    slot-Frame k o o' lv lv' same frame sh = elim (Option-cases o) [
      | inl gone ↦ slot-none lv' k o' (same ∙ gone) ∙ sym (slot-none lv k o gone)
      | inr (child, there) ↦
          slot-some lv' k o' child (same ∙ there)
          ∙ Frame-elements leaf_words entries some_words some_entries depth child (place k) lv lv'
              frame (sh child there)
          ∙ sym (slot-some lv k o child there)
    ]

    pub place_mono : (i k : ℕ) → i ≤ k → place i ≤ place k
    place_mono i k l = omega (arith, mul-le-mul_right {m = i} {n = k} size l)

    -- The first child, and then the rest.
    cons-ChildrenVisited :
        (n i : ℕ) (nodes : ℕ → Option (Tnode depth)) (found : Bool)
        (st : State env r scanner leaf_words entries) (s : S) (h : Bool)
        → ShapedFrom (suc n) i nodes st.ebmp.leaves
        → (c d : Children env r scanner (Tnode depth)) → ChildrenVisited 1 i nodes found st s h c
        → ChildrenVisited n (i + 1) c.0 c.1 c.2 (sift sel (listed st.ebmp.leaves 1 i nodes) s).1 h d
        → ChildrenVisited (suc n) i nodes found st s h d
    unfolding children_elements
    cons-ChildrenVisited n i nodes found st s h shaped c d v w =
        let lv = st.ebmp.leaves in
        let here = single lv i nodes in
        let s1 = (sift sel (listed lv 1 i nodes) s).1 in
        let front =
          slot-Frame i (c.0 i) (d.0 i) c.2.ebmp.leaves d.2.ebmp.leaves
            (w.others i (inl (omega arith)))
            (Outside-Frame _ _ _ _ _ _ (inl (omega (arith, place_suc i))) w.outside)
            (λ child there. (v.shaped i (omega arith) (omega arith) child there).1) in
        let rest =
          children-cong (elements_in c.2.ebmp.leaves) (elements_in lv) size first n (i + 1) c.0
            nodes
            (λ k l u.
              slot-Frame k (nodes k) (c.0 k) lv c.2.ebmp.leaves (v.others k (inr l))
                (Outside-Frame _ _ _ _ _ _ (inr (place_mono (i + 1) k l)) v.outside)
                (λ child there. (shaped k (omega arith) (omega arith) child there).1)) in
        let kept1 = front ∙ sym (single c.2.ebmp.leaves i c.0) ∙ v.kept in
        let kept2 = w.kept ∙ ap (λ l. (sift sel l s1).0) rest in
        let next_end : i + suc n ≡ i + 1 + n = omega arith in
        let carried = ap (λ l. (sift sel l s).1) here in
        let all = sift-append sel (slot lv i (nodes i)) (listed lv n (i + 1) nodes) s in
        record {
          good = w.good;
          outside = rw next_end (
              Outside-trans (place i) (place (i + 1)) (place (i + 1 + n)) lv c.2.ebmp.leaves
                d.2.ebmp.leaves (place_mono i (i + 1) (omega arith))
                (place_mono (i + 1) (i + 1 + n) (omega arith)) v.outside w.outside);
          others = λ k o. elim o [
            | inl low ↦ w.others k (inl (omega arith)) ∙ v.others k (inl low)
            | inr high ↦ w.others k (inr (omega arith)) ∙ v.others k (inr (omega arith))
          ];
          shaped = λ k l u child there. elim (Bool-cases (k == i)) [
            | inl first_one ↦
                let at = w.others k (inl (ground arith)) in
                let (small, sh) = v.shaped k l (ground arith) child (sym at ∙ there) in
                (
                  small,
                  Frame-Shaped leaf_words entries some_words some_entries depth child (place k)
                      c.2.ebmp.leaves d.2.ebmp.leaves
                      (Outside-Frame _ _ _ _ _ _
                        (inl (omega (arith, place_suc i, ap place ((==_iff k i).0 first_one))))
                        w.outside)
                      sh,
                )
            | inr later ↦ w.shaped k (ground arith) (omega arith) child there
          ];
          kept =
              rw
                (
                  kept1 ∙ ap (λ l. (sift sel l s).0) here,
                  kept2 ∙ ap (λ t. (sift sel (listed lv n (i + 1) nodes) t).0) carried,
                )
                (sym (ap (λ t. t.0) all));
          scan =
              w.scan
              ∙ ap (λ l. ((sift sel l s1).1, h)) rest
              ∙ ap (λ t. ((sift sel (listed lv n (i + 1) nodes) t).1, h)) carried
              ∙ ap (λ t. (t.1, h)) (sym all);
          empty = λ b.
              let (found1, rest_gone) = w.empty b in
              let (found0, gone) = v.empty found1 in
              (
                found0,
                λ k l u. elim (Bool-cases (k == i)) [
                  | inl first_one ↦ w.others k (inl (ground arith)) ∙ gone k l (ground arith)
                  | inr later ↦ rest_gone k (ground arith) (omega arith)
                ],
              );
          cache = CacheOf-trans st.ebmp c.2.ebmp d.2.ebmp v.cache w.cache;
          still = λ k l u child there x low high fits a f seen at n'. elim (Bool-cases (k == i)) [
            | inl first_one ↦
                let held = CacheOf-back c.2.ebmp d.2.ebmp a w.cache at n' in
                let (child', there', seen') =
                  v.still k l (ground arith) child there x low high fits a f seen held n' in
                (child', w.others k (inl (ground arith)) ∙ there', seen')
            | inr later ↦
                w.still k (ground arith) (omega arith) child
                  (v.others k (inr (ground arith)) ∙ there) x low high fits a f seen at n'
          ];
        }

    -- The loop over `n` children.
    pub children-Visited :
        (n i : ℕ) (nodes : ℕ → Option (Tnode depth)) (found : Bool)
        (st : State env r scanner leaf_words entries) (s : S) (h : Bool)
        → Good st
        → st.scan ≡ (s, h)
        → ShapedFrom n i nodes st.ebmp.leaves
        → ChildrenVisited n i nodes found st s h (
            enum_children env r scanner depth
              (tnode_enumerate env r scanner depth)
              size
              first
              n
              i
              (nodes, found, st))
    unfolding enum_children children_elements sift
    children-Visited zero i nodes found st s h good scan shaped = record {
      good = good;
      outside = record { brk = refl; same = λ a n below out. (refl, refl) };
      others = λ k o. refl;
      shaped = λ k l u child there. absurd (omega arith);
      kept = refl;
      scan = scan;
      empty = λ e. (e, λ k l u. absurd (omega arith));
      cache = inl (refl, refl);
      still = λ k l u child there x low high fits a f seen at n. absurd (omega arith);
    }
    children-Visited (suc n) i nodes found st s h good scan shaped =
        let c = one i (nodes, found, st) in
        let v =
          one-ChildrenVisited i nodes found st s h good scan (λ k l u. shaped k l (omega arith)) in
        let kept_nodes = λ (k : ℕ) (l : i + 1 ≤ k). v.others k (inr l) in
        let later =
          ShapedFrom-after n (i + 1) i nodes c.0 st.ebmp.leaves c.2.ebmp.leaves kept_nodes v.outside
            (λ k l u. shaped k (omega arith) (omega arith)) in
        let s1 = (sift sel (listed st.ebmp.leaves 1 i nodes) s).1 in
        let w = children-Visited n (i + 1) c.0 c.1 c.2 s1 h v.good v.scan later in
        cons-ChildrenVisited n i nodes found st s h shaped c _ v w
