-- ===== src/RegionGroup/Table.antt =====
-- The exported operations on region groups.
use larceny.Base.{
  ℕ, zero, suc, ◌+◌, ◌<◌, ◌≡◌, ◌≢◌, refl, sym, ap, ◌∙◌, inl, inr, true, false, some, List, [], ◌∷◌,
  ◌++◌, arith, has, length, ◌==◌, if◌then◌else◌, Bool-cases,
}
use mathlib.Core.List.{append_assoc, append-nil}
use larceny.Pool.Contents.{without, without_absent}
use larceny.RegionGroup.{
  Heap, Groups, region_group_push, region_group_enq, enq_all_from, region_group_enq_all,
}
use larceny.RegionGroup.Linked.{DList}
use larceny.RegionGroup.Insert.{distinct_short}
use larceny.RegionGroup.Moves.{IsTable, moved, push-moves, enq-moves}

-- In a sound table, pushing a heap of group `old_grp`, at an address other than NULL and below the
-- limit, ends and keeps the table sound, counts included. The heap leaves
-- its list and comes first in the list of the new group; the other lists do not change.
pub region_group_push-IsTable :
    (s : Groups) (members : ℕ → List ℕ) (a old_grp new_grp : ℕ)
    → IsTable s members
    → a ≢ 0
    → a < s.limit
    → (s.heap a).group ≡ old_grp
    → (u : Groups) × (region_group_push s a old_grp new_grp ≡ some u)
      × IsTable u (moved members a new_grp (a ∷ without a (members new_grp)))
region_group_push-IsTable s members a old_grp new_grp v nz b e =
    let (u, run, t, l) = push-moves s members a v nz b new_grp in
    (u, ap (λ g. region_group_push s a g new_grp) (sym e) ∙ run, t)

-- In a sound table, enqueueing a heap of group `old_grp`, at an address other than NULL and below the
-- limit, ends and keeps the table sound, counts included. The heap
-- leaves its list and comes last in the list of the new group; the other lists do not change.
pub region_group_enq-IsTable :
    (s : Groups) (members : ℕ → List ℕ) (a old_grp new_grp : ℕ)
    → IsTable s members
    → a ≢ 0
    → a < s.limit
    → (s.heap a).group ≡ old_grp
    → (u : Groups) × (region_group_enq s a old_grp new_grp ≡ some u)
      × IsTable u (moved members a new_grp (without a (members new_grp) ++ a ∷ []))
      × (u.limit ≡ s.limit)
region_group_enq-IsTable s members a old_grp new_grp v nz b e =
    let (u, run, t, l) = enq-moves s members a v nz b new_grp in
    (u, ap (λ g. region_group_enq s a g new_grp) (sym e) ∙ run, t, l)

-- the lists when all heaps of one group have moved to the end of another
abbrev pub all_moved : (ℕ → List ℕ) → ℕ → ℕ → ℕ → List ℕ
all_moved members old_grp new_grp g =
    if g == new_grp
    then members new_grp ++ members old_grp
    else if g == old_grp
    then []
    else members g

-- the front heap of a group with the list `xs`
front_heap :
    (heap : ℕ → Heap) (q : ℕ) (x : ℕ) (xs ys : List ℕ)
    → ys ≡ x ∷ xs
    → DList heap 0 q ys
    → (q ≡ x) × (x ≢ 0)
front_heap heap q x xs ys e d = let d' = rw e at d in (d'.0, ground (arith, d'.1))

empty_front : (heap : ℕ → Heap) (q : ℕ) (ys : List ℕ) → ys ≡ [] → DList heap 0 q ys → q ≡ 0
empty_front heap q ys e d = rw e at d

without-front : (x : ℕ) (xs : List ℕ) → has x xs ≡ false → without x (x ∷ xs) ≡ xs
unfolding without
without-front x xs h = let here : (x == x) ≡ true = ground arith in rw here (without_absent x xs h)

module _ (members : ℕ → List ℕ) (x : ℕ) (xs : List ℕ) (old_grp new_grp : ℕ)
    (e : members old_grp ≡ x ∷ xs) (once : has x xs ≡ false)
    (only : (g : ℕ) → (g == old_grp) ≡ false → has x (members g) ≡ false)
    (n : old_grp ≢ new_grp) where
  abbrev one_moved : ℕ → List ℕ
  one_moved = moved members x new_grp (without x (members new_grp) ++ x ∷ [])

  one_moved-old : one_moved old_grp ≡ xs
  one_moved-old =
      let h : (old_grp == new_grp) ≡ false = ground arith in rw (h, e) (without-front x xs once)

  one_moved-new : one_moved new_grp ≡ members new_grp ++ x ∷ []
  one_moved-new =
      let h : (new_grp == new_grp) ≡ true = ground arith in
      let out : (new_grp == old_grp) ≡ false = ground arith in
      rw h (ap (λ l. l ++ x ∷ []) (without_absent x (members new_grp) (only new_grp out)))

  -- moving all is moving the first and then all
  all_moved-step :
      (g : ℕ) → all_moved one_moved old_grp new_grp g ≡ all_moved members old_grp new_grp g
  all_moved-step g = elim (Bool-cases (g == new_grp)) [
    | inl h ↦ rw h (
        ap (λ l. l ++ one_moved old_grp) one_moved-new
        ∙ ap (λ l. (members new_grp ++ x ∷ []) ++ l) one_moved-old
        ∙ append_assoc (members new_grp) (x ∷ []) xs
        ∙ ap (λ l. members new_grp ++ l) (sym e))
    | inr h ↦ elim (Bool-cases (g == old_grp)) [
      | inl k ↦ rw (h, k) refl
      | inr k ↦ rw (h, k) (without_absent x (members g) (only g k))
    ]
  ]

none_moved :
    (members : ℕ → List ℕ) (old_grp new_grp g : ℕ)
    → members old_grp ≡ []
    → members g ≡ all_moved members old_grp new_grp g
none_moved members old_grp new_grp g e = elim (Bool-cases (g == new_grp)) [
  | inl h ↦
      let same : g ≡ new_grp = ground arith in
      rw h (
        ap members same
        ∙ sym (append-nil (members new_grp))
        ∙ ap (λ l. members new_grp ++ l) (sym e))
  | inr h ↦ elim (Bool-cases (g == old_grp)) [
    | inl k ↦ let same : g ≡ old_grp = ground arith in rw (h, k) (ap members same ∙ e)
    | inr k ↦ rw (h, k) refl
  ]
]

enq_all_from-moves :
    (xs : List ℕ) (fuel : ℕ) (s : Groups) (members : ℕ → List ℕ) (old_grp new_grp : ℕ)
    → length xs < fuel
    → IsTable s members
    → members old_grp ≡ xs
    → old_grp ≢ new_grp
    → (u : Groups) × (lists : ℕ → List ℕ) × (enq_all_from fuel s old_grp new_grp ≡ some u)
      × IsTable u lists
      × ((g : ℕ) → lists g ≡ all_moved members old_grp new_grp g)
unfolding enq_all_from
enq_all_from-moves xs zero s members old_grp new_grp f v e n = absurd (omega arith)
enq_all_from-moves [] (suc fuel) s members old_grp new_grp f v e n =
    let z =
      empty_front s.heap (s.first_heap old_grp) (members old_grp) e (v.lists.linked old_grp) in
    (s, members, rw z refl, v, λ g. none_moved members old_grp new_grp g e)
enq_all_from-moves (x ∷ xs) (suc fuel) s members old_grp new_grp f v e n =
    let (first, nz) =
      front_heap s.heap (s.first_heap old_grp) x xs (members old_grp) e (v.lists.linked old_grp) in
    let front_there : has x (x ∷ xs) ≡ true = ground arith in
    let here : has x (members old_grp) ≡ true = ap (has x) e ∙ front_there in
    let once : has x xs ≡ false = (rw e at (v.lists.distinct old_grp)).0 in
    let group : (s.heap x).group ≡ old_grp = v.lists.in_group old_grp x here in
    let only : (g : ℕ) → (g == old_grp) ≡ false → has x (members g) ≡ false = λ g h.
      elim (Bool-cases (has x (members g))) [
        | inr k ↦ k
        | inl k ↦ absurd (ground (arith, v.lists.in_group g x k))
      ] in
    let (t, run, vt, l) =
      region_group_enq-IsTable s members x old_grp new_grp v nz (v.lists.within old_grp x here)
        group in
    let (u, lists, run', vu, same) =
      enq_all_from-moves xs fuel t (one_moved members x xs old_grp new_grp e once only n) old_grp
        new_grp (omega (arith, f)) vt (one_moved-old members x xs old_grp new_grp e once only n)
        n in
    let nonzero : (x == 0) ≡ false = ground arith in
    (
      u,
      lists,
      rw (first, nonzero, run, enq_all_from) run',
      vu,
      λ g. same g ∙ all_moved-step members x xs old_grp new_grp e once only n g,
    )

-- In a sound table, moving all heaps of a group to another one ends and keeps the table sound, counts
-- included. The
-- heaps follow those of the new group, in their order; the old group is empty afterwards, and the
-- other lists do not change.
pub region_group_enq_all-IsTable :
    (s : Groups) (members : ℕ → List ℕ) (old_grp new_grp : ℕ)
    → IsTable s members
    → old_grp ≢ new_grp
    → (u : Groups) × (lists : ℕ → List ℕ) × (region_group_enq_all s old_grp new_grp ≡ some u)
      × IsTable u lists
      × ((g : ℕ) → lists g ≡ all_moved members old_grp new_grp g)
unfolding region_group_enq_all
region_group_enq_all-IsTable s members old_grp new_grp v n =
    let short =
      distinct_short s.limit (members old_grp) (v.lists.distinct old_grp)
        (v.lists.within old_grp) in
    enq_all_from-moves (members old_grp) (s.limit + 1) s members old_grp new_grp
      (omega (arith, short)) v refl n
