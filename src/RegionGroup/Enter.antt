-- ===== src/RegionGroup/Enter.antt =====
-- What entering a heap does to the invariant.
use larceny.Base.{
  ℕ, ◌≤◌, ◌<◌, ◌≡◌, ◌≢◌, refl, sym, ap, ◌∙◌, ◌⊎◌, inl, inr, true, false, ◌&&◌, ◌||◌, Option, some,
  List, [], ◌∷◌, ◌++◌, arith, has, has-append, length, IsDistinct, update, update_self, update_ne,
  ◌==◌, if◌then◌else◌, Bool-cases,
}
use larceny.RegionGroup.{Groups, set_next, join, link_group_push, last_in_group, link_group_enq}
use larceny.RegionGroup.Linked.{DList, DList-frame, IsLinked, first_inside}
use larceny.RegionGroup.Insert.{
  distinct_short, list-end, list-nil, append-DList, pushed, push-DList, front,
}

-- the lists after the heap has joined `group`
abbrev pub joined : (ℕ → List ℕ) → ℕ → List ℕ → ℕ → List ℕ
joined members group xs g = if g == group then xs else members g

module _ (t : Groups) (members : ℕ → List ℕ) (a group : ℕ) (v : IsLinked t members) (nz : a ≢ 0)
    (bound : a < t.limit) (out : (g : ℕ) → has a (members g) ≡ false) where
  -- a heap of one list is in no other
  alone :
      (g b : ℕ) → has b (members group) ≡ true → (g == group) ≡ false → has b (members g) ≡ false
  alone g b h e = elim (Bool-cases (has b (members g))) [
    | inr k ↦ k
    | inl k ↦
        let same : g ≡ group = sym (v.in_group g b k) ∙ v.in_group group b h in
        absurd (ground arith)
  ]

  pub has-joined :
      (xs : List ℕ) (g b : ℕ)
      → ((c : ℕ) → has c xs ≡ (has c (members group) || (c == a)))
      → has b (joined members group xs g) ≡ (has b (members g) || ((b == a) && (g == group)))
  has-joined xs g b same_members = elim (Bool-cases (g == group)) [
    | inl e ↦ let same : g ≡ group = ground arith in rw (e, same) (ground (arith, same_members b))
    | inr e ↦ rw e (ground arith)
  ]

  -- What an entry must do: `u` is the state after it, and `xs` the new list.
  entered-IsLinked :
      (u : Groups) (xs : List ℕ)
      → DList u.heap 0 (u.first_heap group) xs
      → IsDistinct xs
      → ((b : ℕ) → has b xs ≡ (has b (members group) || (b == a)))
      → ((b : ℕ) → (u.heap b).group ≡ (if b == a then group else (t.heap b).group))
      → ((b : ℕ)
          → b ≢ a
          → has b (members group) ≡ false
          → ((u.heap b).prev_in_group ≡ (t.heap b).prev_in_group)
            × ((u.heap b).next_in_group ≡ (t.heap b).next_in_group))
      → ((g : ℕ) → (g == group) ≡ false → u.first_heap g ≡ t.first_heap g)
      → u.limit ≡ t.limit
      → IsLinked u (joined members group xs)
  entered-IsLinked u xs list once same_members groups others firsts limit = record {
    linked = λ g. elim (Bool-cases (g == group)) [
      | inl e ↦ let same : g ≡ group = ground arith in rw (e, same) list
      | inr e ↦
          rw (e, firsts g e)
            (DList-frame t.heap u.heap 0 (t.first_heap g) (members g)
              (λ b h.
                others b (λ z. ground (arith, out g, ap (λ c. has c (members g)) z))
                  (elim (Bool-cases (has b (members group))) [
                    | inr k ↦ k
                    | inl k ↦ absurd (ground (arith, alone g b k e))
                  ]))
              (v.linked g))
    ];
    distinct =
        λ g. elim (Bool-cases (g == group)) [ inl e ↦ rw e once | inr e ↦ rw e (v.distinct g) ];
    in_group = λ g b h. elim (Bool-cases (b == a)) [
      | inl e ↦
          let same : b ≡ a = ground arith in
          ground (
            arith,
            groups b,
            has-joined xs g b same_members,
            ap (λ c. has c (members g)) same,
            out g,
          )
      | inr e ↦ ground (arith, groups b, has-joined xs g b same_members, v.in_group g b)
    ];
    within = λ g b h. elim (Bool-cases (b == a)) [
      | inl e ↦ ground (arith, limit, bound)
      | inr e ↦ ground (arith, has-joined xs g b same_members, v.within g b, limit)
    ];
    apart = λ b h. elim (Bool-cases (b == a)) [
      | inl e ↦ absurd (ground (arith, groups b, has-joined xs (u.heap b).group b same_members))
      | inr e ↦
          let kept : (u.heap b).group ≡ (t.heap b).group = ground (arith, groups b) in
          let outside : has b (members (t.heap b).group) ≡ false = ground (
            arith,
            has-joined xs (t.heap b).group b same_members,
            ap (λ g. has b (joined members group xs g)) kept,
          ) in
          let stranger : has b (members group) ≡ false = elim (Bool-cases (has b (members group))) [
            | inr k ↦ k
            | inl k ↦ ground (arith, ap (λ g. has b (members g)) (v.in_group group b k))
          ] in
          let (p, n) = others b (ground arith) stranger in
          let (i, j) = v.apart b outside in (p ∙ i, n ∙ j)
    ];
  }

  -- what the two ways to enter promise
  abbrev pub Enters : Option Groups → List ℕ → Type 0
  Enters o xs =
      (u : Groups) × (o ≡ some u)
      × IsLinked u (joined members group xs)
      × ((b : ℕ) → (u.heap b).group ≡ (if b == a then group else (t.heap b).group))
      × (u.count ≡ t.count)
      × (u.limit ≡ t.limit)

  push-run :
      link_group_push t a group
      ≡ some (record t {
        heap = pushed t.heap a group (t.first_heap group);
        first_heap = update t.first_heap group a;
      })
  unfolding link_group_push
  push-run = elim (front t.heap (t.first_heap group) (members group) (v.linked group)) [
    | inl z ↦ ground arith
    | inr (h, p) ↦ ground (arith, v.in_group group (t.first_heap group) h)
  ]

  -- the front heap is in the list, and not the one that enters
  first_known : (t.first_heap group ≡ 0) ⊎ (has (t.first_heap group) (members group) ≡ true)
  first_known = first_inside t.heap 0 (t.first_heap group) (members group) (v.linked group)

  first_ne : t.first_heap group ≢ a
  first_ne = elim first_known [
    | inl z ↦ λ e. nz (sym e ∙ z)
    | inr h ↦ λ e. ground (arith, out group, ap (λ b. has b (members group)) e)
  ]

  pub link_group_push-Enters : Enters (link_group_push t a group) (a ∷ members group)
  link_group_push-Enters =
      let u : Groups = record t {
        heap = pushed t.heap a group (t.first_heap group);
        first_heap = update t.first_heap group a;
      } in
      let groups : (b : ℕ) → (u.heap b).group ≡ (if b == a then group else (t.heap b).group) =
        λ b. ground (arith, first_ne) in
      (
        u,
        push-run,
        entered-IsLinked u (a ∷ members group)
            (rw (update_self t.first_heap group a) (
              push-DList t.heap a group (t.first_heap group) (members group) nz (out group)
                (v.distinct group) (v.linked group)))
            (out group, v.distinct group) (λ b. ground arith) groups
            (λ b n m.
              let other : b ≢ t.first_heap group ⊎ (t.first_heap group ≡ 0) = elim first_known [
                | inl z ↦ inr z
                | inr h ↦ inl (λ e. ground (arith, ap (λ c. has c (members group)) e))
              ] in
              (ground arith, ground arith))
            (λ g e. update_ne t.first_heap group g a (ground arith)) refl,
        groups,
        refl,
        refl,
      )

  short : length (members group) ≤ t.limit
  short = distinct_short t.limit (members group) (v.distinct group) (v.within group)

  -- an entry behind the last heap `l`
  enq_behind :
      (l : ℕ)
      → (t.first_heap group == 0) ≡ false
      → last_in_group t.limit t.heap (t.first_heap group) ≡ some l
      → has l (members group) ≡ true
      → (t.heap l).next_in_group ≡ 0
      → Enters (link_group_enq t a group) (members group ++ a ∷ [])
  unfolding link_group_enq
  enq_behind l nonempty e m z =
      let u : Groups = record t { heap = join (set_next t.heap l a) a group l 0 } in
      let groups : (b : ℕ) → (u.heap b).group ≡ (if b == a then group else (t.heap b).group) =
        λ b. ground arith in
      (
        u,
        rw (nonempty, e) refl,
        entered-IsLinked u (members group ++ a ∷ [])
            (append-DList t.heap a group l 0 (t.first_heap group) (members group) nz (out group) m z
              (v.distinct group) (v.linked group))
            (distinct_append (members group) (v.distinct group) (out group))
            (λ b. ground (arith, has-append b (members group) (a ∷ []))) groups
            (λ b n k.
              let other : b ≢ l = λ e. ground (arith, ap (λ c. has c (members group)) e) in
              (ground arith, ground arith))
            (λ g e. refl) refl,
        groups,
        refl,
        refl,
      )
    where
      distinct_append : (xs : List ℕ) → IsDistinct xs → has a xs ≡ false → IsDistinct (xs ++ a ∷ [])
      distinct_append [] d k = (refl, tt)
      distinct_append (x ∷ xs) d k =
          (ground (arith, has-append x xs (a ∷ [])), distinct_append xs d.1 (ground arith))

  -- an entry into an empty list
  enq_alone :
      (t.first_heap group == 0) ≡ true → Enters (link_group_enq t a group) (members group ++ a ∷ [])
  unfolding link_group_enq
  enq_alone empty =
      let u : Groups = record t {
        first_heap = update t.first_heap group a;
        heap = join t.heap a group 0 0;
      } in
      let groups : (b : ℕ) → (u.heap b).group ≡ (if b == a then group else (t.heap b).group) =
        λ b. ground arith in
      let none_there =
        list-nil t.heap 0 (t.first_heap group) (members group) (ground arith) (v.linked group) in
      (
        u,
        rw empty refl,
        entered-IsLinked u (members group ++ a ∷ [])
            (rw (none_there, update_self t.first_heap group a)
              (refl, ground arith, ground arith, ground arith))
            (rw none_there (refl, tt)) (λ b. ground (arith, has-append b (members group) (a ∷ [])))
            groups (λ b n k. (ground arith, ground arith))
            (λ g e. update_ne t.first_heap group g a (ground arith)) refl,
        groups,
        refl,
        refl,
      )

  pub link_group_enq-Enters : Enters (link_group_enq t a group) (members group ++ a ∷ [])
  link_group_enq-Enters = elim (Bool-cases (t.first_heap group == 0)) [
    | inl empty ↦ enq_alone empty
    | inr nonempty ↦
        let (l, e, m, z) =
          list-end t.limit t.heap (t.first_heap group) (members group) short (ground arith)
            (v.linked group) in
        enq_behind l nonempty e m z
  ]
