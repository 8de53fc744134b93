-- ===== src/Extbmp/Free.antt =====
-- Freeing a leaf: the lists stay in order, and the cache forgets the leaf.
use larceny.Base.{
  ℕ, ◌<◌, ◌≡◌, ◌≢◌, refl, ◌⊎◌, inl, inr, none, arith, Option-cases, Bool-cases, ◌==◌,
}
use larceny.Extbmp.{Extbmp}
use larceny.Extbmp.Lists.{free_leaf}
use larceny.Extbmp.Linked.{remove-Linked, remove-apart, relabel-Linked}
use larceny.Extbmp.Valid.{gnos}
use larceny.Extbmp.Relist.{Linked-ext, Links, Blank}

-- What freeing `leaf` does.
pub record Frees (e : Extbmp) (leaf : ℕ) (e' : Extbmp) : Type 0 where
  pub links : Links e'
  pub blank : Blank e'
  pub brk : e'.leaves.brk ≡ e.leaves.brk
  pub others :
      (a : ℕ)
      → a ≢ leaf
      → ((e'.leaves.at a).bitmap ≡ (e.leaves.at a).bitmap)
        × ((e'.leaves.at a).start ≡ (e.leaves.at a).start)
  pub cache :
      ((e'.mru_leaf ≡ e.mru_leaf) × (e'.mru_first ≡ e.mru_first) × (e.mru_leaf ≢ leaf))
      ⊎ (e'.mru_leaf ≡ 0)
  pub sizes : (e'.leaf_words ≡ e.leaf_words) × (e'.entries_per_inode ≡ e.entries_per_inode)

module _ (e : Extbmp) (linked : Links e) (blank : Blank e) (leaf : ℕ) (not_null : leaf ≢ 0)
    (allocated : leaf < e.leaves.brk) where
  free-Links : Links (free_leaf e leaf)
  unfolding free_leaf
  free-Links = elim (Option-cases (gnos e.leaves leaf)) [
    | inl loose ↦
        Linked-ext _ _ _ _ _ _ _ _ (λ a. ground arith) (λ a. ground (arith, linked.loose leaf))
          (λ a. ground (arith, linked.loose leaf)) (λ a. rw loose refl) linked
    | inr (g, mine) ↦
        let apart = remove-apart _ _ _ _ linked leaf g not_null mine in
        Linked-ext _ _ _ _ _ _ _ _ (λ a. ground arith) (λ a. ground arith) (λ a. ground arith)
          (λ a. rw mine refl)
          (relabel-Linked _ _ _ _ (remove-Linked _ _ _ _ linked leaf g not_null mine) leaf none
            (ground arith, ground arith) apart not_null)
  ]

  pub free_leaf-Frees : Frees e leaf (free_leaf e leaf)
  unfolding free_leaf
  free_leaf-Frees = record {
    links = free-Links;
    blank = λ a above.
        let u = blank a (ground arith) in
        record {
          no_gno = ground (arith, u.no_gno);
          no_prev = ground (arith, u.no_prev, u.no_gno, linked.along leaf, linked.loose leaf);
          no_next = ground (arith, u.no_next, u.no_gno, linked.forth leaf);
        };
    brk = ground arith;
    others = λ a n. (ground arith, ground arith);
    cache = elim (Bool-cases (e.mru_leaf == leaf)) [
      | inl e' ↦ inr (rw e' refl)
      | inr e' ↦ inl (rw e' refl, rw e' refl, ground arith)
    ];
    sizes = (refl, refl);
  }
