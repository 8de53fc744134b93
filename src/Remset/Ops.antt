-- ===== src/Remset/Ops.antt =====
-- Insertion, removal and enumeration of a valid remembered set.
use larceny.Base.{
  ℕ, ◌+◌, ◌-◌, ◌≡◌, refl, ap, ◌∙◌, sym, ◌≢◌, [], ◌∷◌, ◌++◌, some, Bool, false, ◌||◌, arith, has,
  length, length-append, if◌then◌else◌, Bool-cases, inl, inr,
}
use larceny.Pool.{is_full, erase_node, insert_node}
use larceny.Pool.Contents.{elements, without, length-without, without_absent}
use larceny.Pool.Sound.{found, find_node-found, found-has, found_yes}
use larceny.Pool.Add.{insert_node-IsSound, elements-insert_node}
use larceny.Pool.Erase.{Thins-erase_node, Thins-IsSound, elements-erase_node}
use larceny.Pool.Scan.{sift, scan_pool-Sifts}
use larceny.Remset.{Remset, rs_add_elem_new, rs_add_elem, rs_del_elem, rs_enumerate}
use larceny.Remset.Valid.{IsValid, rs_elements, elements-IsDistinct}

-- the pool after an insertion is that of `insert_node`
new-pool : (rs : Remset) (w : ℕ) → (rs_add_elem_new rs w).0.pool ≡ insert_node rs.pool w
unfolding rs_add_elem_new insert_node
new-pool rs w = elim (Bool-cases (is_full rs.pool)) [ inl e ↦ rw e refl | inr e ↦ rw e refl ]

new-live : (rs : Remset) (w : ℕ) → (rs_add_elem_new rs w).0.live ≡ rs.live + 1
unfolding rs_add_elem_new
new-live rs w = ground arith

-- Adding a word that is not 0 and not in the valid set appends it to the elements, keeps the set valid,
-- and sets the overflow flag exactly if it reports an overflow or the flag was set.
pub rs_add_elem_new-IsValid :
    (rs : Remset) (w : ℕ)
    → IsValid rs
    → w ≢ 0
    → has w (rs_elements rs) ≡ false
    → IsValid (rs_add_elem_new rs w).0
      × (rs_elements (rs_add_elem_new rs w).0 ≡ rs_elements rs ++ w ∷ [])
      × ((rs_add_elem_new rs w).0.has_overflowed ≡ ((rs_add_elem_new rs w).1 || rs.has_overflowed))
rs_add_elem_new-IsValid rs w v n out =
    let same = ap elements (new-pool rs w) ∙ elements-insert_node rs.pool v.sound w n out in
    (
      record {
        sound = rw (new-pool rs w) (insert_node-IsSound rs.pool v.sound w n out);
        live = rw (same, length-append) (omega (arith, new-live rs w, v.live));
      },
      same,
      flag,
    )
  where
    flag : (rs_add_elem_new rs w).0.has_overflowed ≡ ((rs_add_elem_new rs w).1 || rs.has_overflowed)
    flag = unfold rs_add_elem_new in ground arith

-- Adding a word that is not 0 to a valid set ends. A word that is in the set already leaves the set
-- as it is and reports no overflow; any other is appended to the elements, and the set stays valid.
pub rs_add_elem-IsValid :
    (rs : Remset) (w : ℕ)
    → IsValid rs
    → w ≢ 0
    → (r : Remset × Bool) × (rs_add_elem rs w ≡ some r)
      × IsValid r.0
      × (rs_elements r.0
          ≡ (if has w (rs_elements rs) then rs_elements rs else rs_elements rs ++ w ∷ []))
      × (r ≡ (if has w (rs_elements rs) then (rs, false) else rs_add_elem_new rs w))
unfolding rs_add_elem
rs_add_elem-IsValid rs w v n = elim (Bool-cases (has w (rs_elements rs))) [
  | inl here ↦ (
    (rs, false),
    rw (find_node-found rs.pool v.sound w, rs_add_elem)
        (ground (arith, found-has rs.pool v.sound w n)),
    v,
    ground arith,
    ground arith,
  )
  | inr out ↦
      let (valid, grows, flag) = rs_add_elem_new-IsValid rs w v n out in
      (
        rs_add_elem_new rs w,
        rw (find_node-found rs.pool v.sound w, rs_add_elem)
            (ground (arith, found-has rs.pool v.sound w n)),
        valid,
        rw (out, grows) refl,
        ground arith,
      )
]

-- Deleting a word that is not 0 from a valid set ends, keeps the set valid, and takes out that word
-- and no other.
pub rs_del_elem-IsValid :
    (rs : Remset) (w : ℕ)
    → IsValid rs
    → w ≢ 0
    → (r : Remset) × (rs_del_elem rs w ≡ some r)
      × IsValid r
      × (rs_elements r ≡ without w (rs_elements rs))
unfolding rs_del_elem
rs_del_elem-IsValid rs w v n = elim (Bool-cases (has w (rs_elements rs))) [
  | inr out ↦ (
    rs,
    rw (find_node-found rs.pool v.sound w, rs_del_elem)
        (ground (arith, found-has rs.pool v.sound w n)),
    v,
    sym (without_absent w (rs_elements rs) out),
  )
  | inl here ↦
      let b = found v.sound w in
      let at_b = found_yes rs.pool v.sound w (ground (arith, found-has rs.pool v.sound w n)) in
      let shrinks =
        rw at_b.1 at (elements-erase_node rs.pool b v.sound at_b.0 (λ z. n (sym at_b.1 ∙ z))) in
      (
        record rs {
          pool = record (rs.pool) { mem = erase_node rs.pool.mem b };
          live = rs.live - 1;
        },
        rw (find_node-found rs.pool v.sound w, rs_del_elem)
            (ground (arith, found-has rs.pool v.sound w n)),
        record {
          sound = Thins-IsSound rs.pool _ v.sound (Thins-erase_node rs.pool.mem b);
          live = omega (
            arith,
            ap length shrinks,
            v.live,
            length-without w (rs_elements rs) (elements-IsDistinct rs v) here,
          );
        },
        shrinks,
      )
]

-- Enumeration of a valid set calls the scanner once on each element, in order; the elements that it accepts stay,
-- the others go, and the set stays valid.
pub rs_enumerate-IsValid :
    {S : Type 0} (scanner : ℕ → S × ℕ → Bool × (S × ℕ)) (rs : Remset) (s : S)
    → IsValid rs
    → IsValid (rs_enumerate scanner rs s).0
      × (rs_elements (rs_enumerate scanner rs s).0 ≡ (sift scanner (rs_elements rs) (s, 0)).0)
      × ((rs_enumerate scanner rs s).1 ≡ (sift scanner (rs_elements rs) (s, 0)).1.0)
unfolding rs_enumerate elements
rs_enumerate-IsValid scanner rs s v =
    let t = scan_pool-Sifts scanner rs.pool (s, 0) v.sound.distinct in
    (
      record {
        sound = Thins-IsSound rs.pool _ v.sound t.thins;
        live = omega (arith, t.removes, v.live);
      },
      t.keeps,
      ap (λ u. u.0) t.state,
    )
