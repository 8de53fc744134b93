-- ===== src/RegionGroup.antt =====
-- Region groups: src/Rts/Sys/region_group.c. Each heap of the regional collector is in one group, and
-- the heaps of a group form a doubly linked list. A group is its number in the enumeration of
-- include/Sys/larceny-types.h, 0 is NULL as an address, and the heaps have addresses below `limit`.
-- A result `none` is a failed `assert`, or a loop that does not end on its fuel.
pub mod Linked
pub mod Unlink
pub mod Insert
pub mod Enter
pub mod Moves
pub mod Table
use larceny.Base.{
  ℕ, zero, suc, ◌+◌, ◌-◌, Bool, true, false, not, ◌&&◌, ◌||◌, Option, none, some, update, ◌==◌,
  if◌then◌else◌,
}

-- The fields of `old_heap_t` that the groups use.
pub record Heap : Type 0 where
  pub group : ℕ
  pub prev_in_group : ℕ
  pub next_in_group : ℕ

-- The heaps in memory, and the two tables by group.
pub record Groups : Type 0 where
  pub heap : ℕ → Heap
  pub first_heap : ℕ → ℕ
  pub count : ℕ → ℕ
  pub limit : ℕ

abbrev pub region_group_nonrrof : ℕ
region_group_nonrrof = 0

abbrev pub set_next : (ℕ → Heap) → ℕ → ℕ → ℕ → Heap
set_next heap a n = update heap a (record (heap a) { next_in_group = n })

abbrev pub set_prev : (ℕ → Heap) → ℕ → ℕ → ℕ → Heap
set_prev heap a p = update heap a (record (heap a) { prev_in_group = p })

-- The two conditional blocks with their assertions.
unfoldable pub relink_prev : (ℕ → Heap) → ℕ → ℕ → ℕ → Option (ℕ → Heap)
relink_prev heap a p n =
    if p == 0
    then some heap
    else if (heap p).next_in_group == a
    then some (set_next heap p n)
    else none

unfoldable pub relink_next : (ℕ → Heap) → ℕ → ℕ → ℕ → Option (ℕ → Heap)
relink_next heap a p n =
    if n == 0
    then some heap
    else if (heap n).prev_in_group == a
    then some (set_prev heap n p)
    else none

unfoldable pub unlink_group : Groups → ℕ → Option Groups
unlink_group s a =
    let p = (s.heap a).prev_in_group in
    let n = (s.heap a).next_in_group in
    let grp = (s.heap a).group in
    elim (relink_prev s.heap a p n) [
      | none ↦ none
      | some h1 ↦ elim (relink_next h1 a p n) [
        | none ↦ none
        | some h2 ↦ some (record s {
          first_heap = if s.first_heap grp == a then update s.first_heap grp n else s.first_heap;
          heap = set_next (set_prev h2 a 0) a 0;
        })
      ]
    ]

-- The heap joins the list with the given neighbours, before its group is set.
abbrev pub join : (ℕ → Heap) → ℕ → ℕ → ℕ → ℕ → ℕ → Heap
join heap a group prev next =
    update heap a (record { group = group; prev_in_group = prev; next_in_group = next })

unfoldable pub link_group_push : Groups → ℕ → ℕ → Option Groups
link_group_push s a group =
    let next = s.first_heap group in
    if (next == 0) || (((s.heap next).prev_in_group == 0) && ((s.heap next).group == group))
    then some (record s {
      heap =
          if next == 0
          then join s.heap a group 0 next
          else set_prev (join s.heap a group 0 next) next a;
      first_heap = update s.first_heap group a;
    })
    else none

-- `while (prev->next_in_group != NULL) prev = prev->next_in_group;`
unfoldable pub last_in_group : ℕ → (ℕ → Heap) → ℕ → Option ℕ
last_in_group zero heap prev = none
last_in_group (suc fuel) heap prev =
    let rest = last_in_group fuel heap (heap prev).next_in_group in
    if (heap prev).next_in_group == 0 then some prev else rest

unfoldable pub link_group_enq : Groups → ℕ → ℕ → Option Groups
link_group_enq s a group =
    let first = s.first_heap group in
    if first == 0
    then some
        (record s { first_heap = update s.first_heap group a; heap = join s.heap a group 0 0 })
    else elim (last_in_group s.limit s.heap first) [
      | none ↦ none
      | some prev ↦ some (record s { heap = join (set_next s.heap prev a) a group prev 0 })
    ]

-- The counts do not go below 0 in a table that `IsLinked` holds of.
unfoldable pub decr_count : Groups → ℕ → Groups
decr_count s a =
    let grp = (s.heap a).group in
    if grp == region_group_nonrrof
    then s
    else record s { count = update s.count grp (s.count grp - 1) }

unfoldable pub incr_count : Groups → ℕ → Groups
incr_count s a =
    let grp = (s.heap a).group in
    if grp == region_group_nonrrof
    then s
    else record s { count = update s.count grp (s.count grp + 1) }

unfoldable pub region_group_push : Groups → ℕ → ℕ → ℕ → Option Groups
region_group_push s a old_grp new_grp =
    if (s.heap a).group == old_grp
    then elim (unlink_group (decr_count s a) a) [
      | none ↦ none
      | some t ↦ elim (link_group_push t a new_grp) [ none ↦ none | some u ↦ some (incr_count u a) ]
    ]
    else none

unfoldable pub region_group_enq : Groups → ℕ → ℕ → ℕ → Option Groups
region_group_enq s a old_grp new_grp =
    if (s.heap a).group == old_grp
    then elim (unlink_group (decr_count s a) a) [
      | none ↦ none
      | some t ↦ elim (link_group_enq t a new_grp) [ none ↦ none | some u ↦ some (incr_count u a) ]
    ]
    else none

-- `fuel` bounds the rounds of the loop.
unfoldable pub enq_all_from : ℕ → Groups → ℕ → ℕ → Option Groups
enq_all_from zero s old_grp new_grp = none
enq_all_from (suc fuel) s old_grp new_grp =
    let h = s.first_heap old_grp in
    if h == 0 then some s else elim (region_group_enq s h old_grp new_grp) [
      | none ↦ none
      | some t ↦ enq_all_from fuel t old_grp new_grp
    ]

unfoldable pub region_group_enq_all : Groups → ℕ → ℕ → Option Groups
unfolding enq_all_from
region_group_enq_all s old_grp new_grp = enq_all_from (s.limit + 1) s old_grp new_grp

-- `oh_geq` compares two heaps.
unfoldable pub largest_from : (ℕ → ℕ → Bool) → (ℕ → Heap) → ℕ → ℕ → ℕ → ℕ
largest_from oh_geq heap zero oh oh_max = oh_max
largest_from oh_geq heap (suc sample_count) oh oh_max =
    if oh == 0
    then oh_max
    else largest_from oh_geq heap sample_count (heap oh).next_in_group
        (if oh_geq oh oh_max then oh else oh_max)

unfoldable pub region_group_largest : (ℕ → ℕ → Bool) → Groups → ℕ → ℕ → ℕ
unfolding largest_from
region_group_largest oh_geq s grp sample_count =
    largest_from oh_geq s.heap sample_count (s.first_heap grp) (s.first_heap grp)
