-- ===== src/Pool/Scan.antt =====
-- A scan calls the scanner once on each element, in order, and keeps those that it accepts.
use mathlib.Core.List.{foldl, foldl-append}
use larceny.Base.{
  ℕ, ◌+◌, ◌≡◌, refl, sym, ap, ◌∙◌, ◌≢◌, inl, inr, Bool, false, List, [], ◌∷◌, arith, has, length,
  IsDistinct, ◌==◌, if◌then◌else◌, Bool-cases,
}
use larceny.Pool.{
  Pool, Segment, slots, nodes_of, nodes_in, erase_node, ScanState, scan_node, scan_segment,
  scan_pool,
}
use larceny.Pool.Contents.{contents, contents-frame}
use larceny.Pool.Grow.{nodes_in-append}
use larceny.Pool.Erase.{Thins, Thins-refl, Thins-trans, Thins-erase_node}

-- The effect on the list of elements: what is kept, and the scanner's data at the end.
unfoldable pub sift : {S : Type 0} → (ℕ → S → Bool × S) → List ℕ → S → List ℕ × S
sift scanner [] s = ([], s)
sift scanner (x ∷ xs) s =
    let (keep, t) = scanner x s in
    let (rest, u) = sift scanner xs t in (if keep then x ∷ rest else rest, u)

module _ {S : Type 0} (scanner : ℕ → S → Bool × S) where
  scan_node-other : (t : ScanState S) (p a : ℕ) → a ≢ p → (scan_node scanner t p).mem a ≡ t.mem a
  unfolding scan_node erase_node
  scan_node-other t p a n = ground arith

  scan_node-Thins : (t : ScanState S) (p : ℕ) → Thins t.mem (scan_node scanner t p).mem
  unfolding scan_node
  scan_node-Thins t p = elim (Bool-cases ((t.mem p).object == 0)) [
    | inl e ↦ rw e (Thins-refl t.mem)
    | inr e ↦ elim (Bool-cases (scanner (t.mem p).object t.state).0) [
      | inl k ↦ rw (e, k) (Thins-refl t.mem)
      | inr k ↦ rw (e, k) (Thins-erase_node t.mem p)
    ]
  ]

  -- what a scan of the nodes `ns` from `t` to `r` does
  pub record Sifts (ns : List ℕ) (t r : ScanState S) : Type 0 where
    pub others : (a : ℕ) → has a ns ≡ false → r.mem a ≡ t.mem a
    pub keeps : contents r.mem ns ≡ (sift scanner (contents t.mem ns) t.state).0
    pub state : r.state ≡ (sift scanner (contents t.mem ns) t.state).1
    pub removes : r.removed + length (contents r.mem ns) ≡ t.removed + length (contents t.mem ns)
    pub counts : r.scanned ≡ t.scanned + length (contents t.mem ns)
    pub thins : Thins t.mem r.mem

  -- The record for one more node in front of a scan.
  module _ (p : ℕ) (ns : List ℕ) (t r : ScanState S) (apart : has p ns ≡ false)
      (ih : Sifts ns (scan_node scanner t p) r) where
    node_p : r.mem p ≡ (scan_node scanner t p).mem p
    node_p = ih.others p apart

    rest_same : contents (scan_node scanner t p).mem ns ≡ contents t.mem ns
    rest_same =
        contents-frame t.mem (scan_node scanner t p).mem ns
          (λ a m. ap (λ n. n.object) (scan_node-other t p a (ground arith)))

    cons-Sifts : Sifts (p ∷ ns) t r
    unfolding contents sift scan_node erase_node
    cons-Sifts = record {
      others = λ a h. ih.others a (ground arith) ∙ scan_node-other t p a (ground arith);
      keeps = ground (arith, node_p, rest_same, ih.keeps, ih.state);
      state = ground (arith, node_p, rest_same, ih.keeps, ih.state);
      removes = ground (arith, node_p, rest_same, ih.removes);
      counts = ground (arith, node_p, rest_same, ih.counts);
      thins = Thins-trans t.mem (scan_node scanner t p).mem r.mem (scan_node-Thins t p) ih.thins;
    }

  scan_nodes-Sifts :
      (ns : List ℕ) (t : ScanState S) → IsDistinct ns → Sifts ns t (foldl (scan_node scanner) t ns)
  unfolding contents sift
  scan_nodes-Sifts [] t d = record {
    others = λ a h. refl;
    keeps = refl;
    state = refl;
    removes = refl;
    counts = omega arith;
    thins = Thins-refl t.mem;
  }
  scan_nodes-Sifts (p ∷ ns) t d =
      cons-Sifts p ns t (foldl (scan_node scanner) (scan_node scanner t p) ns) d.0
        (scan_nodes-Sifts ns (scan_node scanner t p) d.1)

  scan_segments-scan_nodes :
      (ss : List Segment) (t : ScanState S)
      → foldl (scan_segment scanner) t ss ≡ foldl (scan_node scanner) t (nodes_in ss)
  unfolding scan_segment
  scan_segments-scan_nodes [] t = refl
  scan_segments-scan_nodes (s ∷ ss) t =
      scan_segments-scan_nodes ss (foldl (scan_node scanner) t (nodes_of s))
      ∙ sym (foldl-append (scan_node scanner) t (nodes_of s) (nodes_in ss))

  -- The two loops of a scan are one loop over the nodes in use.
  pub scan_pool-Sifts :
      (d : Pool) (s : S)
      → IsDistinct (slots d)
      → Sifts
          (slots d)
          (record { mem = d.mem; state = s; removed = 0; scanned = 0 })
          (scan_pool scanner d s)
  unfolding scan_pool
  scan_pool-Sifts d s h =
      rw (scan_segments-scan_nodes, nodes_in-append d.before d.curr)
        (scan_nodes-Sifts (slots d) _ h)
