-- ===== src/Extbmp/All.antt =====
-- The enumeration of a valid bitmap: what the scanner sees, and what stays in the set.
use larceny.Base.{
  ℕ, ◌*◌, ◌^◌, ◌<◌, ◌≡◌, refl, ap, ◌∙◌, inl, inr, Bool, true, some, List, arith, Bool-cases, ◌==◌,
  ==_iff,
}
use larceny.Extbmp.{Tnode, Extbmp}
use larceny.Extbmp.Enumerate.{Request, Environment, EnumState, tnode_enumerate}
use larceny.Extbmp.Valid.{IsValid, Cached}
use larceny.Extbmp.Window.{selected}
use larceny.Extbmp.Tree.{tree_elements}
use larceny.Extbmp.Visited.{Enumerated}
use larceny.Extbmp.Whole.{tnode_enumerate_lem}
use larceny.Extbmp.Requests.{enumerate_root}
use larceny.Pool.Scan.{sift}

-- the addresses of a bitmap, in increasing order
abbrev pub members : Extbmp → List ℕ
members e = tree_elements e.leaf_words e.entries_per_inode e.depth e.leaves e.tree 0

module _ {S : Type 0} (env : Environment) (r : Request) (scanner : ℕ → S → Bool × S) (e : Extbmp)
    (v : IsValid e) (s : S) (begins : r.first_enum < 2 ^ 32) (ends : r.limit_enum < 2 ^ 32) where
  abbrev initial : EnumState env r scanner
  initial = record { ebmp = e; leaves_enumerated = 0; nodes_enumerated = 0; scan = (s, true) }

  abbrev result : Bool × Tnode e.depth × EnumState env r scanner
  result = tnode_enumerate env r scanner e.depth e.tree 0 initial

  abbrev done :
      Enumerated env r scanner e.leaf_words e.entries_per_inode e.depth e.tree 0 initial s true
        result
  done =
      tnode_enumerate_lem env r scanner e.leaf_words e.entries_per_inode v.some_words v.some_entries
        ends e.depth e.tree 0 initial s true
        (record { same_words = refl; same_entries = refl; links = v.linked; blank = v.blank }) refl
        refl (omega (arith, v.covers)) v.shaped

  abbrev after : Extbmp
  after = record result.2.ebmp { depth = e.depth; tree = result.1 }

  cache_after : Cached after
  cache_after = elim done.cache [
    | inr forgotten ↦ inl forgotten
    | inl same ↦ elim v.cache [
      | inl empty ↦ inl (same.0 ∙ empty)
      | inr (bounded, coherent) ↦ elim (Bool-cases (e.mru_leaf == 0)) [
        | inl empty ↦ inl (same.0 ∙ (==_iff e.mru_leaf 0).0 empty)
        | inr full ↦
            let size = done.good.same_words in
            let bytes = ap (λ n. 4 * (64 * n)) size in
            inr (
              omega (arith, bounded, same.1, bytes),
              λ w low high.
                  rw (same.0, same.1)
                    (done.still w (omega arith) (omega (arith, v.covers, bounded, same.1, bytes))
                      (omega (arith, bounded, same.1, bytes)) e.mru_leaf e.mru_first
                      (coherent w (omega (arith, same.1)) (omega (arith, same.1, bytes))) same.0
                      (ground arith)),
            )
      ]
    ]
  ]

  after-IsValid : IsValid after
  after-IsValid = record {
    some_words = rw done.good.same_words v.some_words;
    some_entries = rw done.good.same_entries v.some_entries;
    covers = rw (done.good.same_words, done.good.same_entries) v.covers;
    brk_pos = omega (arith, v.brk_pos, done.outside.brk);
    shaped = rw (done.good.same_words, done.good.same_entries) done.shaped;
    cache = cache_after;
    blank = done.good.blank;
    linked = done.good.links;
  }

  -- On a valid bitmap, a request whose two limits are words fails no assertion. The scanner sees, once
  -- each and in increasing order, the addresses of the bitmap that are wanted for the generation and
  -- whose word of a leaf meets the limits, tagged if the request says so; those it rejects leave the
  -- bitmap and all others stay. The bitmap is valid afterwards.
  pub enumerate_root_lem :
      (e' : Extbmp) × (enumerate_root env r scanner e s
        ≡ some (e', (sift (selected env r scanner) (members e) s).1))
      × IsValid e'
      × (e'.leaf_words ≡ e.leaf_words)
      × (members e' ≡ (sift (selected env r scanner) (members e) s).0)
  unfolding enumerate_root
  enumerate_root_lem = (
    after,
    rw (done.scan, enumerate_root) refl,
    after-IsValid,
    done.good.same_words,
    rw (done.good.same_words, done.good.same_entries) done.kept,
  )
