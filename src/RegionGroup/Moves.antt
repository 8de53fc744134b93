-- ===== src/RegionGroup/Moves.antt =====
-- Moving heaps between groups: the whole operations, with the counts.
use larceny.Base.{
  ℕ, suc, ◌+◌, ◌-◌, ◌<◌, ◌≡◌, ◌≢◌, refl, ap, ◌∙◌, inl, inr, true, false, ◌&&◌, ◌||◌, some, List, [],
  ◌∷◌, ◌++◌, arith, has, has-append, length, length-append, update, ◌==◌, if◌then◌else◌, Bool-cases,
}
use larceny.Pool.Contents.{without, has-without, length-without, without_absent}
use larceny.RegionGroup.{
  Groups, region_group_nonrrof, decr_count, incr_count, region_group_push, region_group_enq,
}
use larceny.RegionGroup.Linked.{IsLinked}
use larceny.RegionGroup.Unlink.{
  unlink_group-run, after_unlink, after_unlink-IsLinked, unlinked_group,
}
use larceny.RegionGroup.Enter.{joined, link_group_push-Enters, link_group_enq-Enters}

-- The lists of the groups are `members`, every heap of a group other than nonrrof is in its list,
-- and the counts are the lengths, except that nonrrof counts 0.
pub record IsTable (s : Groups) (members : ℕ → List ℕ) : Type 0 where
  pub lists : IsLinked s members
  pub listed :
      (a : ℕ) → (s.heap a).group ≢ region_group_nonrrof → has a (members (s.heap a).group) ≡ true
  pub counted : (g : ℕ) → s.count g ≡ (if g == region_group_nonrrof then 0 else length (members g))

-- the lists when `a` has moved to `group`, whose list is then `xs`
abbrev pub moved : (ℕ → List ℕ) → ℕ → ℕ → List ℕ → ℕ → List ℕ
moved members a group xs = joined (λ g. without a (members g)) group xs

with_counts :
    (s : Groups) (members : ℕ → List ℕ) (c : ℕ → ℕ)
    → IsLinked s members
    → IsLinked (record s { count = c }) members
with_counts s members c v = record {
  linked = v.linked;
  distinct = v.distinct;
  in_group = v.in_group;
  within = v.within;
  apart = v.apart;
}

incr_form :
    (u : Groups) (a : ℕ)
    → let grp = (u.heap a).group in
      incr_count u a ≡ record u {
        count =
            if grp == region_group_nonrrof then u.count else update u.count grp (u.count grp + 1);
      }
unfolding incr_count
incr_form u a = elim (Bool-cases ((u.heap a).group == 0)) [ inl e ↦ rw e refl | inr e ↦ rw e refl ]

has-moved :
    (members : ℕ → List ℕ) (a group : ℕ) (xs : List ℕ) (g b : ℕ)
    → has b xs ≡ (has b (without a (members group)) || (b == a))
    → has b (moved members a group xs g)
      ≡ (has b (without a (members g)) || ((b == a) && (g == group)))
has-moved members a group xs g b h = elim (Bool-cases (g == group)) [
  | inl e ↦ let same : g ≡ group = ground arith in rw (e, same) (ground (arith, h))
  | inr e ↦ rw e (ground arith)
]

module _ (s : Groups) (members : ℕ → List ℕ) (a : ℕ) (v : IsTable s members) where
  abbrev decreased : ℕ → ℕ
  decreased =
      let grp = (s.heap a).group in
      if grp == region_group_nonrrof then s.count else update s.count grp (s.count grp - 1)

  -- only the counts change
  decr_form : decr_count s a ≡ record s { count = decreased }
  unfolding decr_count
  decr_form = elim (Bool-cases ((s.heap a).group == 0)) [ inl e ↦ rw e refl | inr e ↦ rw e refl ]

  -- after the decrement the counts are right for the lists without the heap
  decreased-length : (g : ℕ) → decreased g ≡ (if g == 0 then 0 else length (without a (members g)))
  decreased-length g = elim (Bool-cases (has a (members g))) [
    | inl here ↦
        let same : (s.heap a).group ≡ g = v.lists.in_group g a here in
        rw same (
          ground (
            arith,
            v.counted g,
            v.counted (s.heap a).group,
            length-without a (members g) (v.lists.distinct g) here,
          ))
    | inr out ↦ rw (without_absent a (members g) out) (elim (Bool-cases (g == (s.heap a).group)) [
      | inl e ↦
          let same : g ≡ (s.heap a).group = ground arith in
          ground (arith, v.counted g, v.listed a, ap (λ h. has a (members h)) same)
      | inr e ↦ ground (arith, v.counted g)
    ])
  ]

  -- the memory and the counts when the heap has entered the list `xs` of `group`
  entered-IsTable :
      (u : Groups) (group : ℕ) (xs : List ℕ)
      → IsLinked u (moved members a group xs)
      → ((b : ℕ) → has b xs ≡ (has b (without a (members group)) || (b == a)))
      → length xs ≡ suc (length (without a (members group)))
      → ((b : ℕ) → (u.heap b).group ≡ (if b == a then group else (s.heap b).group))
      → u.count ≡ decreased
      → IsTable (incr_count u a) (moved members a group xs)
  entered-IsTable u group xs l same_members longer groups counts =
      let own : (u.heap a).group ≡ group = ground (arith, groups a) in
      rw (incr_form u a, own)
        (record {
          lists = with_counts u (moved members a group xs) _ l;
          listed = λ b n. elim (Bool-cases (b == a)) [
            | inl e ↦
                ground (
                  arith,
                  groups b,
                  has-moved members a group xs (u.heap b).group b (same_members b),
                )
            | inr e ↦
                let kept : (u.heap b).group ≡ (s.heap b).group = ground (arith, groups b) in
                ground (
                  arith,
                  kept,
                  has-moved members a group xs (u.heap b).group b (same_members b),
                  has-without b a (members (u.heap b).group),
                  v.listed b,
                  ap (λ g. has b (members g)) kept,
                )
          ];
          counted = λ g. elim (Bool-cases (g == group)) [
            | inl e ↦
                let same : g ≡ group = ground arith in
                rw (same, counts) (ground (arith, decreased-length group, longer))
            | inr e ↦ rw (e, counts) (ground (arith, decreased-length g))
          ];
        })

  module _ (nz : a ≢ 0) (bound : a < s.limit) where
    abbrev counted_down : Groups
    counted_down = record s { count = decreased }

    down-IsLinked : IsLinked counted_down members
    down-IsLinked = with_counts s members decreased v.lists

    abbrev taken_out : Groups
    taken_out = after_unlink counted_down members a down-IsLinked

    abbrev others : ℕ → List ℕ
    others g = without a (members g)

    out-IsLinked : IsLinked taken_out others
    out-IsLinked = after_unlink-IsLinked counted_down members a down-IsLinked nz

    gone : (g : ℕ) → has a (others g) ≡ false
    gone g = ground (arith, has-without a a (members g))

    -- the memory keeps the groups while the heap is taken out
    group_kept : (b : ℕ) → (taken_out.heap b).group ≡ (s.heap b).group
    group_kept b = unlinked_group s.heap a b

    group_after :
        (u : Groups) (group b : ℕ)
        → (u.heap b).group ≡ (if b == a then group else (taken_out.heap b).group)
        → (u.heap b).group ≡ (if b == a then group else (s.heap b).group)
    group_after u group b h = ground (arith, h, group_kept b)

    pub push-moves :
        (group : ℕ)
        → (u : Groups) × (region_group_push s a (s.heap a).group group ≡ some u)
          × IsTable u (moved members a group (a ∷ others group))
          × (u.limit ≡ s.limit)
    unfolding region_group_push
    push-moves group =
        let (u, e, l, groups, counts, limit) =
          link_group_push-Enters taken_out others a group out-IsLinked nz bound gone in
        (
          incr_count u a,
          rw (decr_form, unlink_group-run counted_down members a down-IsLinked, e) (ground arith),
          entered-IsTable u group (a ∷ others group) l (λ b. ground arith) refl
              (λ b. group_after u group b (groups b)) counts,
          ap (λ t. t.limit) (incr_form u a) ∙ limit,
        )

    pub enq-moves :
        (group : ℕ)
        → (u : Groups) × (region_group_enq s a (s.heap a).group group ≡ some u)
          × IsTable u (moved members a group (others group ++ a ∷ []))
          × (u.limit ≡ s.limit)
    unfolding region_group_enq
    enq-moves group =
        let (u, e, l, groups, counts, limit) =
          link_group_enq-Enters taken_out others a group out-IsLinked nz bound gone in
        (
          incr_count u a,
          rw (decr_form, unlink_group-run counted_down members a down-IsLinked, e) (ground arith),
          entered-IsTable u group (others group ++ a ∷ []) l
              (λ b. ground (arith, has-append b (others group) (a ∷ [])))
              (length-append (others group) (a ∷ []) ∙ omega arith)
              (λ b. group_after u group b (groups b)) counts,
          ap (λ t. t.limit) (incr_form u a) ∙ limit,
        )
