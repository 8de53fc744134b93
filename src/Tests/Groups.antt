-- ===== src/Tests/Groups.antt =====
-- Two heaps in one group and a new heap.
use larceny.Base.{
  ℕ, ◌≡◌, refl, List, [], ◌∷◌, ◌++◌, Option, some, none, arith, ◌==◌, if◌then◌else◌, Bool-cases,
  inl, inr,
}
use larceny.Pool.Contents.{without}
use larceny.RegionGroup.{
  Groups, region_group_push, region_group_enq, region_group_enq_all, unlink_group, relink_prev,
  relink_next, link_group_enq, last_in_group, decr_count, incr_count, region_group_largest,
}
use larceny.RegionGroup.Linked.{IsLinked}
use larceny.RegionGroup.Moves.{IsTable, moved}
use larceny.RegionGroup.Table.{
  all_moved, region_group_push-IsTable, region_group_enq-IsTable, region_group_enq_all-IsTable,
}

-- the heaps 1 and 2 wait in group 2, and heap 3 is new
abbrev waiting : Groups
waiting = record {
  heap = λ a.
      if a == 1
      then record { group = 2; prev_in_group = 0; next_in_group = 2 }
      else if a == 2
      then record { group = 2; prev_in_group = 1; next_in_group = 0 }
      else record { group = 0; prev_in_group = 0; next_in_group = 0 };
  first_heap = λ g. if g == 2 then 1 else 0;
  count = λ g. if g == 2 then 2 else 0;
  limit = 4;
}

abbrev waiting_lists : ℕ → List ℕ
waiting_lists g = if g == 2 then 1 ∷ 2 ∷ [] else []

waiting-IsLinked : IsLinked waiting waiting_lists
waiting-IsLinked = record {
  linked = λ g. elim (Bool-cases (g == 2)) [
    | inl e ↦ rw e (refl, omega arith, refl, (refl, omega arith, refl, refl))
    | inr e ↦ rw e refl
  ];
  distinct = λ g. elim (Bool-cases (g == 2)) [ inl e ↦ rw e (refl, (refl, tt)) | inr e ↦ rw e tt ];
  in_group = λ g a h. ground arith;
  within = λ g a h. ground arith;
  apart = λ a h. (ground arith, ground arith);
}

waiting-IsTable : IsTable waiting waiting_lists
waiting-IsTable = record {
  lists = waiting-IsLinked;
  listed = λ a n. ground arith;
  counted = λ g. ground arith;
}

-- a look at a state: the list of group 5 read through two links, and its count
abbrev seen : Option Groups → Option (ℕ × ℕ × ℕ)
seen none = none
seen (some s) = some (s.first_heap 5, (s.heap (s.first_heap 5)).next_in_group, s.count 5)

enq_all_runs : seen (region_group_enq_all waiting 2 5) ≡ some (1, 2, 2)
unfolding region_group_enq_all region_group_enq unlink_group relink_prev relink_next link_group_enq
    last_in_group decr_count incr_count
enq_all_runs = refl

largest_runs : region_group_largest (λ a b. a == 2) waiting 2 5 ≡ 2
unfolding region_group_largest
largest_runs = refl

region_group_push-IsTable_example :
    (u : Groups) × (region_group_push waiting 2 2 5 ≡ some u)
    × IsTable u (moved waiting_lists 2 5 (2 ∷ without 2 (waiting_lists 5)))
region_group_push-IsTable_example =
    region_group_push-IsTable waiting waiting_lists 2 2 5 waiting-IsTable (omega arith)
      (omega arith) refl

region_group_enq-IsTable_example :
    (u : Groups) × (region_group_enq waiting 3 0 2 ≡ some u)
    × IsTable u (moved waiting_lists 3 2 (without 3 (waiting_lists 2) ++ 3 ∷ []))
    × (u.limit ≡ waiting.limit)
region_group_enq-IsTable_example =
    region_group_enq-IsTable waiting waiting_lists 3 0 2 waiting-IsTable (omega arith) (omega arith)
      refl

region_group_enq_all-IsTable_example :
    (u : Groups) × (lists : ℕ → List ℕ) × (region_group_enq_all waiting 2 5 ≡ some u)
    × IsTable u lists
    × ((g : ℕ) → lists g ≡ all_moved waiting_lists 2 5 g)
region_group_enq_all-IsTable_example =
    region_group_enq_all-IsTable waiting waiting_lists 2 5 waiting-IsTable (omega arith)
