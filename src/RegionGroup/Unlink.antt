-- ===== src/RegionGroup/Unlink.antt =====
-- Taking a heap out of its list.
use larceny.Base.{
  ℕ, ◌≡◌, ◌≢◌, refl, sym, ap, ◌∙◌, ◌⊎◌, inl, inr, true, false, not, ◌&&◌, some, List, [], ◌∷◌,
  arith, has, IsDistinct, update, ◌==◌, if◌then◌else◌, Bool-cases,
}
use larceny.Pool.Contents.{without, has-without, without_absent}
use larceny.RegionGroup.{Heap, Groups, set_next, set_prev, relink_prev, relink_next, unlink_group}
use larceny.RegionGroup.Linked.{
  IsLinked, no_null, first_inside, without-IsDistinct, DList, DList-frame, next_inside, prev_inside,
  next_back,
}

-- the memory after all writes
unfoldable pub unlinked : (ℕ → Heap) → ℕ → ℕ → Heap
unlinked heap a =
    let p = (heap a).prev_in_group in
    let n = (heap a).next_in_group in
    let h1 = if p == 0 then heap else set_next heap p n in
    let h2 = if n == 0 then h1 else set_prev h1 n p in set_next (set_prev h2 a 0) a 0

module _ (heap : ℕ → Heap) (a : ℕ) where
  unlinked_next :
      (b : ℕ)
      → b ≢ a
      → (unlinked heap a b).next_in_group ≡ (
          if (b == (heap a).prev_in_group) && not (b == 0)
          then (heap a).next_in_group
          else (heap b).next_in_group)
  unfolding unlinked
  unlinked_next b n = ground arith

  unlinked_prev :
      (b : ℕ)
      → b ≢ a
      → (unlinked heap a b).prev_in_group ≡ (
          if (b == (heap a).next_in_group) && not (b == 0)
          then (heap a).prev_in_group
          else (heap b).prev_in_group)
  unfolding unlinked
  unlinked_prev b n = ground arith

  pub unlinked_group : (b : ℕ) → (unlinked heap a b).group ≡ (heap b).group
  unfolding unlinked
  unlinked_group b = ground arith

  pub unlinked_self :
      ((unlinked heap a a).prev_in_group ≡ 0) × ((unlinked heap a a).next_in_group ≡ 0)
  unfolding unlinked
  unlinked_self = (ground arith, ground arith)

  -- Lists without the heap and its neighbours stay as they are.
  pub apart-DList :
      (prev q : ℕ) (xs : List ℕ)
      → has a xs ≡ false
      → has (heap a).prev_in_group xs ≡ false
      → has (heap a).next_in_group xs ≡ false
      → DList heap prev q xs
      → DList (unlinked heap a) prev q xs
  apart-DList prev q xs i j k d =
      DList-frame heap (unlinked heap a) prev q xs
        (λ b h. (
          ground (arith, unlinked_prev b (ground arith)),
          ground (arith, unlinked_next b (ground arith)),
        ))
        d

  -- the heap comes first
  first-DList :
      (prev : ℕ) (ys : List ℕ)
      → (heap a).prev_in_group ≡ prev
      → has a ys ≡ false
      → has prev ys ≡ false
      → IsDistinct ys
      → DList heap a (heap a).next_in_group ys
      → DList (unlinked heap a) prev (heap a).next_in_group ys
  first-DList prev [] p i j s d = d
  first-DList prev (y ∷ ys) p i j s d =
      let kept : (unlinked heap a y).next_in_group ≡ (heap y).next_in_group =
        ground (arith, unlinked_next y (ground arith), d.0) in
      (
        d.0,
        d.1,
        ground (arith, unlinked_prev y (ground arith), d.0),
        rw kept (
            apart-DList y (heap y).next_in_group ys (ground arith) (ground arith) (ground arith)
              d.3),
      )

  -- The list without the heap is linked, from the neighbour behind where the heap came first.
  pub without-DList :
      (prev q : ℕ) (xs : List ℕ)
      → has a xs ≡ true
      → has prev xs ≡ false
      → IsDistinct xs
      → DList heap prev q xs
      → DList (unlinked heap a) prev (if q == a then (heap a).next_in_group else q) (without a xs)
  unfolding without
  without-DList prev q [] m j s d = absurd (ground arith)
  without-DList prev q (x ∷ xs) m j s d = elim (Bool-cases (x == a)) [
    | inl e ↦
        let same : x ≡ a = ground arith in
        let here : (q == a) ≡ true = ground (arith, d.0) in
        rw (here, e, without_absent a xs (ground arith))
          (first-DList prev xs (rw same at d.2) (ground arith) (ground arith) s.1 (rw same at d.3))
    | inr e ↦
        let there : (q == a) ≡ false = ground (arith, d.0) in
        let link : (unlinked heap a x).next_in_group ≡ (
            if (heap x).next_in_group == a
            then (heap a).next_in_group
            else (heap x).next_in_group) =
          elim (prev_inside heap x (heap x).next_in_group a xs d.3 (ground arith)) [
            | inl (n, p) ↦ ground (arith, unlinked_next x (ground arith), d.1)
            | inr (o, h, n) ↦ ground (arith, unlinked_next x (ground arith), d.1)
          ] in
        let back : (unlinked heap a x).prev_in_group ≡ prev =
          elim (next_inside heap x (heap x).next_in_group a xs d.3 (ground arith)) [
            | inl z ↦ ground (arith, unlinked_prev x (ground arith), d.1, d.2)
            | inr h ↦ ground (arith, unlinked_prev x (ground arith), d.1, d.2)
          ] in
        rw (there, e)
          (
            d.0,
            d.1,
            back,
            rw link (without-DList x (heap x).next_in_group xs (ground arith) s.0 s.1 d.3),
          )
  ]

module _ (s : Groups) (members : ℕ → List ℕ) (a : ℕ) (v : IsLinked s members) where
  -- the neighbours of the heap, in whatever list it is
  neighbour_before :
      ((s.heap a).prev_in_group ≡ 0)
      ⊎ ((has a (members (s.heap a).group) ≡ true)
          × (has (s.heap a).prev_in_group (members (s.heap a).group) ≡ true)
          × ((s.heap (s.heap a).prev_in_group).next_in_group ≡ a))
  neighbour_before =
      let g = (s.heap a).group in
      elim (Bool-cases (has a (members g))) [
        | inr out ↦ inl (v.apart a out).0
        | inl here ↦ elim (prev_inside s.heap 0 (s.first_heap g) a (members g) (v.linked g) here) [
          | inl (q, p) ↦ inl p
          | inr (o, h, n) ↦ inr (here, h, n)
        ]
      ]

  neighbour_behind :
      ((s.heap a).next_in_group ≡ 0)
      ⊎ ((has a (members (s.heap a).group) ≡ true)
          × (has (s.heap a).next_in_group (members (s.heap a).group) ≡ true)
          × ((s.heap (s.heap a).next_in_group).prev_in_group ≡ a))
  neighbour_behind =
      let g = (s.heap a).group in
      elim (Bool-cases (has a (members g))) [
        | inr out ↦ inl (v.apart a out).1
        | inl here ↦ elim (next_inside s.heap 0 (s.first_heap g) a (members g) (v.linked g) here) [
          | inl z ↦ inl z
          | inr h ↦
              let some_next : (s.heap a).next_in_group ≢ 0 = λ z. ground (
                arith,
                ap (λ b. has b (members g)) z,
                no_null s.heap 0 (s.first_heap g) (members g) (v.linked g),
              ) in
              inr (
                here,
                h,
                next_back s.heap 0 (s.first_heap g) a (members g) (v.linked g) here some_next,
              )
        ]
      ]

  -- the state after all writes
  abbrev pub after_unlink : Groups
  after_unlink = record s {
    first_heap =
        if s.first_heap (s.heap a).group == a
        then update s.first_heap (s.heap a).group (s.heap a).next_in_group
        else s.first_heap;
    heap = unlinked s.heap a;
  }

  pub unlink_group-run : unlink_group s a ≡ some after_unlink
  unfolding unlink_group relink_prev relink_next unlinked
  unlink_group-run = elim neighbour_before [
    | inl p ↦ elim neighbour_behind [ inl n ↦ ground arith | inr (i, h, n) ↦ ground arith ]
    | inr (j, k, p) ↦ elim neighbour_behind [ inl n ↦ ground arith | inr (i, h, n) ↦ ground arith ]
  ]

  -- a neighbour is in no list that the heap is not in, and it is in the list of its own group
  elsewhere :
      (g b : ℕ)
      → (b ≡ 0)
        ⊎ ((has a (members (s.heap a).group) ≡ true) × (has b (members (s.heap a).group) ≡ true))
      → has a (members g) ≡ false
      → has b (members g) ≡ false
  elsewhere g b n out = elim (Bool-cases (has b (members g))) [
    | inr h ↦ h
    | inl h ↦ elim n [
      | inl z ↦ ground (
        arith,
        ap (λ c. has c (members g)) z,
        no_null s.heap 0 (s.first_heap g) (members g) (v.linked g),
      )
      | inr (i, j) ↦
          let same = sym (v.in_group (s.heap a).group b j) ∙ v.in_group g b h in
          ground (arith, ap (λ c. has a (members c)) same)
    ]
  ]

  at_home :
      (b : ℕ)
      → (b ≡ 0)
        ⊎ ((has a (members (s.heap a).group) ≡ true) × (has b (members (s.heap a).group) ≡ true))
      → (b ≡ 0) ⊎ (has b (members (s.heap b).group) ≡ true)
  at_home b (inl z) = inl z
  at_home b (inr (i, j)) = inr (ap (λ c. has b (members c)) (v.in_group (s.heap a).group b j) ∙ j)

  before :
      ((s.heap a).prev_in_group ≡ 0)
      ⊎ ((has a (members (s.heap a).group) ≡ true)
          × (has (s.heap a).prev_in_group (members (s.heap a).group) ≡ true))
  before = elim neighbour_before [ inl z ↦ inl z | inr (i, j, k) ↦ inr (i, j) ]

  behind :
      ((s.heap a).next_in_group ≡ 0)
      ⊎ ((has a (members (s.heap a).group) ≡ true)
          × (has (s.heap a).next_in_group (members (s.heap a).group) ≡ true))
  behind = elim neighbour_behind [ inl z ↦ inl z | inr (i, j, k) ↦ inr (i, j) ]

  -- a heap outside all lists is no neighbour
  no_neighbour :
      (b c : ℕ)
      → (c ≡ 0) ⊎ (has c (members (s.heap c).group) ≡ true)
      → has b (members (s.heap b).group) ≡ false
      → ((b == c) && not (b == 0)) ≡ false
  no_neighbour b c n out = elim (Bool-cases (b == c)) [
    | inr e ↦ rw e refl
    | inl e ↦
        let same : b ≡ c = ground arith in
        elim n [
          | inl z ↦ ground arith
          | inr h ↦ ground (arith, ap (λ d. has d (members (s.heap d).group)) same)
        ]
  ]

  stays_apart :
      (b : ℕ)
      → has b (without a (members (s.heap b).group)) ≡ false
      → ((unlinked s.heap a b).prev_in_group ≡ 0) × ((unlinked s.heap a b).next_in_group ≡ 0)
  stays_apart b h = elim (Bool-cases (b == a)) [
    | inl e ↦ let same : b ≡ a = ground arith in rw same (unlinked_self s.heap a)
    | inr e ↦
        let out : has b (members (s.heap b).group) ≡ false =
          ground (arith, has-without b a (members (s.heap b).group)) in
        let p = no_neighbour b (s.heap a).prev_in_group (at_home _ before) out in
        let n = no_neighbour b (s.heap a).next_in_group (at_home _ behind) out in
        let (i, j) = v.apart b out in
        (
          rw (unlinked_prev s.heap a b (ground arith), n) i,
          rw (unlinked_next s.heap a b (ground arith), p) j,
        )
  ]

  first_other :
      (g : ℕ) → a ≢ 0 → has a (members g) ≡ false → after_unlink.first_heap g ≡ s.first_heap g
  first_other g nz out = elim (first_inside s.heap 0 (s.first_heap g) (members g) (v.linked g)) [
    | inl z ↦ elim (Bool-cases (g == (s.heap a).group)) [
      | inl e ↦
          let same : g ≡ (s.heap a).group = ground arith in ground (arith, ap s.first_heap same)
      | inr e ↦ ground arith
    ]
    | inr h ↦ elim (Bool-cases (g == (s.heap a).group)) [
      | inl e ↦
          let same : g ≡ (s.heap a).group = ground arith in
          elim (Bool-cases (s.first_heap g == a)) [
            | inl f ↦
                let first : s.first_heap g ≡ a = ground arith in
                ground (arith, ap (λ b. has b (members g)) first)
            | inr f ↦ ground (arith, ap s.first_heap same)
          ]
      | inr e ↦ ground arith
    ]
  ]

  -- the list of a group without the heap
  linked_after :
      (g : ℕ)
      → a ≢ 0
      → DList (unlinked s.heap a) 0 (after_unlink.first_heap g) (without a (members g))
  linked_after g nz =
      let grp = (s.heap a).group in
      let null = no_null s.heap 0 (s.first_heap g) (members g) (v.linked g) in
      elim (Bool-cases (has a (members g))) [
        | inl here ↦
            let same : grp ≡ g = v.in_group g a here in
            let first : after_unlink.first_heap g
                ≡ (if s.first_heap g == a then (s.heap a).next_in_group else s.first_heap g) =
              rw same (ground arith) in
            rw first (
              without-DList s.heap a 0 (s.first_heap g) (members g) here null (v.distinct g)
                (v.linked g))
        | inr out ↦
            let no_prev : has (s.heap a).prev_in_group (members g) ≡ false =
              elsewhere g _ before out in
            let no_next : has (s.heap a).next_in_group (members g) ≡ false =
              elsewhere g _ behind out in
            let first : after_unlink.first_heap g ≡ s.first_heap g = first_other g nz out in
            rw (first, without_absent a (members g) out)
              (apart-DList s.heap a 0 (s.first_heap g) (members g) out no_prev no_next (v.linked g))
      ]

  pub after_unlink-IsLinked : a ≢ 0 → IsLinked after_unlink (λ g. without a (members g))
  after_unlink-IsLinked nz = record {
    linked = λ g. linked_after g nz;
    distinct = λ g. without-IsDistinct a (members g) (v.distinct g);
    in_group = λ g b h.
        unlinked_group s.heap a b ∙ v.in_group g b (ground (arith, has-without b a (members g)));
    within = λ g b h. v.within g b (ground (arith, has-without b a (members g)));
    apart = λ b h.
        stays_apart b
          (ap (λ g. has b (without a (members g))) (sym (unlinked_group s.heap a b)) ∙ h);
  }
