-- ===== src/Extbmp/Visited.antt =====
-- The enumeration of a tree, one leaf and one child at a time, against the list of its addresses.
use mathlib.Core.Path.{subst}
use larceny.Base.{
  ℕ, zero, suc, ◌+◌, ◌*◌, ◌%◌, ◌^◌, ◌≤◌, ◌<◌, ◌≡◌, ◌≢◌, refl, sym, ap, ◌∙◌, ◌⊎◌, inl, inr, Bool,
  true, Option, none, some, [], arith, update_self, update_ne,
}
use larceny.Extbmp.{Leaf, Tnode, Leaves, Extbmp}
use larceny.Extbmp.Enumerate.{Request, Environment, EnumState, tnode_enum_leaf, tnode_enumerate}
use larceny.Extbmp.Shape.{look, words, Shaped}
use larceny.Extbmp.Relist.{Linked-ext, Links, Blank}
use larceny.Extbmp.Window.{selected, LeafEnumerated, tnode_enum_leaf_lem}
use larceny.Extbmp.Tree.{tree_elements, Frame}
use larceny.Pool.Scan.{sift}
use larceny.Extbmp.Grow.{IsUnlisted}
use larceny.Extbmp.Elements.{word_elements}

-- Only leaves whose first address lies in a range change.
pub record Outside (low high : ℕ) (lv lv' : Leaves) : Type 0 where
  pub brk : lv'.brk ≡ lv.brk
  pub same :
      (a : ℕ)
      → a ≢ 0
      → a < lv.brk
      → ((lv.at a).start < low) ⊎ (high ≤ (lv.at a).start)
      → ((lv'.at a).bitmap ≡ (lv.at a).bitmap) × ((lv'.at a).start ≡ (lv.at a).start)

pub Outside-Frame :
    (low high l h : ℕ) (lv lv' : Leaves)
    → (h ≤ low) ⊎ (high ≤ l)
    → Outside low high lv lv'
    → Frame l h lv lv'
Outside-Frame low high l h lv lv' apart o = record {
  brk = o.brk;
  same = λ a n b from to.
      o.same a n b (elim apart [ inl e ↦ inl (omega arith) | inr e ↦ inr (omega arith) ]);
}

pub Outside-trans :
    (low mid high : ℕ) (a b c : Leaves)
    → low ≤ mid
    → mid ≤ high
    → Outside low mid a b
    → Outside mid high b c
    → Outside low high a c
Outside-trans low mid high a b c p q f g = record {
  brk = g.brk ∙ f.brk;
  same = λ x n below out.
      let one = f.same x n below (elim out [ inl e ↦ inl e | inr e ↦ inr (omega arith) ]) in
      let two =
        g.same x n (omega (arith, f.brk))
          (elim out [ inl e ↦ inl (omega (arith, one.1)) | inr e ↦ inr (omega (arith, one.1)) ]) in
      (two.0 ∙ one.0, two.1 ∙ one.1);
}

-- the cache of a state that is reached from another one
abbrev pub CacheOf : Extbmp → Extbmp → Type 0
CacheOf e e' = ((e'.mru_leaf ≡ e.mru_leaf) × (e'.mru_first ≡ e.mru_first)) ⊎ (e'.mru_leaf ≡ 0)

module _ {S : Type 0} (env : Environment) (r : Request) (scanner : ℕ → S → Bool × S)
    (leaf_words entries : ℕ) where
  abbrev pub State : Type 0
  State = EnumState env r scanner

  pub record IsGood (st : State) : Type 0 where
    pub same_words : st.ebmp.leaf_words ≡ leaf_words
    pub same_entries : st.ebmp.entries_per_inode ≡ entries
    pub links : Links st.ebmp
    pub blank : Blank st.ebmp

  -- what the tree has for an address that is still in the cache
  abbrev pub StillCached : Extbmp → Option (ℕ × ℕ) → Option (ℕ × ℕ) → Type 0
  StillCached e before after =
      (a f : ℕ) → before ≡ some (a, f) → e.mru_leaf ≡ a → a ≢ 0 → after ≡ some (a, f)

  abbrev write : (ℕ → ℕ) → Leaf → Leaf
  write bitmap l = record l { bitmap = bitmap }

  -- a tree that may be freed has no leaf left, but for being a leaf
  abbrev pub IsBare : (depth : ℕ) → Tnode depth → ℕ → Type 0
  IsBare zero leaf start = Unit {0}
  IsBare (suc depth) inode start = (i : ℕ) → i < entries → inode.nodes i ≡ none

  pub record Enumerated (depth : ℕ) (t : Tnode depth) (start : ℕ) (st : State) (s : S) (h : Bool)
      (result : Bool × Tnode depth × State) : Type 0 where
    pub good : IsGood result.2
    pub outside :
        Outside start
          (start + 4 * words leaf_words entries depth)
          st.ebmp.leaves
          result.2.ebmp.leaves
    pub shaped : Shaped leaf_words entries depth result.1 start result.2.ebmp.leaves
    pub kept :
        tree_elements leaf_words entries depth result.2.ebmp.leaves result.1 start
        ≡ (sift
            (selected env r scanner)
            (tree_elements leaf_words entries depth st.ebmp.leaves t start)
            s).0
    pub scan : result.2.scan ≡ (
      (sift
          (selected env r scanner)
          (tree_elements leaf_words entries depth st.ebmp.leaves t start)
          s).1,
      h,
    )
    pub empty :
        result.0 ≡ true
        → (tree_elements leaf_words entries depth result.2.ebmp.leaves result.1 start ≡ [])
          × IsBare depth result.1 start
    pub cache : CacheOf st.ebmp result.2.ebmp
    pub still :
        (x : ℕ)
        → start ≤ x
        → x < start + 4 * words leaf_words entries depth
        → x < 2 ^ 32
        → StillCached result.2.ebmp (look x depth t start) (look x depth result.1 start)

  module _ (some_words : 0 < leaf_words) (some_entries : 0 < entries) where
    pub leaf-Enumerated :
        (leaf start : ℕ) (st : State) (s : S) (h : Bool)
        → IsGood st
        → st.scan ≡ (s, h)
        → start % 256 ≡ 0
        → Shaped leaf_words entries 0 leaf start st.ebmp.leaves
        → Enumerated 0 leaf start st s h (tnode_enumerate env r scanner 0 leaf start st)
    unfolding tnode_enumerate tree_elements
    leaf-Enumerated leaf start st s h good scan aligned sh =
        let bits = (st.ebmp.leaves.at leaf).bitmap in
        let result = tnode_enum_leaf env r scanner st.ebmp.leaf_words bits start st.scan in
        let e : LeafEnumerated env r scanner leaf_words bits start s h result =
          rw (good.same_words, scan)
            (tnode_enum_leaf_lem env r scanner leaf_words bits start s h some_words aligned
              (omega (arith, sh.3))) in
        let written =
          update_self st.ebmp.leaves.at leaf (write result.1 (st.ebmp.leaves.at leaf)) in
        let here = ap (λ l. word_elements leaf_words start 0 l.bitmap) written in
        record {
          good = record {
            same_words = good.same_words;
            same_entries = good.same_entries;
            links =
                Linked-ext _ _ _ _ _ _ _ _ (λ a. ground arith) (λ a. ground arith)
                  (λ a. ground arith) (λ a. refl) good.links;
            blank = λ a above.
                subst IsUnlisted (sym (update_ne st.ebmp.leaves.at leaf a _ (omega (arith, sh.1))))
                  (good.blank a above);
          };
          outside = record {
            brk = refl;
            same = λ a n below out.
                let other : a ≢ leaf =
                  λ at. ground (arith, sh.2, ap (λ l. (st.ebmp.leaves.at l).start) at) in
                let same = update_ne st.ebmp.leaves.at leaf a _ other in
                (ap (λ l. l.bitmap) same, ap (λ l. l.start) same);
          };
          shaped = (sh.0, sh.1, ap (λ l. l.start) written ∙ sh.2, sh.3);
          kept = here ∙ e.kept;
          scan = e.state;
          empty = λ b. (here ∙ e.empty b, tt);
          cache = inl (refl, refl);
          still = λ x low high small a f there at n. there;
        }
