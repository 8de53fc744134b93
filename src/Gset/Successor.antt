-- ===== src/Gset/Successor.antt =====
-- The next element above a generation.
use larceny.Base.{ltb, ◌&&◌, ℕ, ◌≤◌, ◌<◌, ◌≡◌, ◌≢◌, refl, true, false, ◌+◌, arith}
use larceny.Gset.{
  Gset, gs_nil, gs_singleton, gs_range, gs_twrng, IsProper, gset_memberp,
  gset_min_elem_greater_than,
}

-- For a proper set, a result other than 0 is a member above the given generation, and no member lies in between.
pub min_elem_least :
    (gs : Gset) (gno y : ℕ)
    → IsProper gs
    → gset_min_elem_greater_than gs gno ≢ 0
    → (gset_memberp (gset_min_elem_greater_than gs gno) gs ≡ true)
      × (gno < gset_min_elem_greater_than gs gno)
      × ((gset_memberp y gs && (ltb gno y && ltb y (gset_min_elem_greater_than gs gno))) ≡ false)
unfolding gset_memberp gset_min_elem_greater_than
min_elem_least gs_nil gno y p h = ground arith
min_elem_least (gs_singleton a) gno y p h = ground arith
min_elem_least (gs_range a b) gno y p h = ground arith
min_elem_least (gs_twrng a b c d) gno y p h = ground arith

-- A result of 0 for a set that is not a pair of ranges means that it has no member above the given
-- generation.
pub min_elem_none :
    (gs : Gset) (gno y : ℕ)
    → ((a b c d : ℕ) → gs ≢ gs_twrng a b c d)
    → gset_min_elem_greater_than gs gno ≡ 0
    → gno < y
    → gset_memberp y gs ≡ false
unfolding gset_memberp gset_min_elem_greater_than
min_elem_none gs_nil gno y n h l = refl
min_elem_none (gs_singleton a) gno y n h l = ground arith
min_elem_none (gs_range a b) gno y n h l = ground arith
min_elem_none (gs_twrng a b c d) gno y n h l = absurd (n a b c d refl)

-- Of a pair of ranges the search misses the second one when the given generation lies in the gap:
-- it returns 0, though the set has a member above that generation.
pub min_elem_misses_second_range :
    (g1 g2 g3 g4 gno : ℕ)
    → g1 < g2
    → g2 ≤ gno + 1
    → gno + 1 < g3
    → g3 < g4
    → (gset_min_elem_greater_than (gs_twrng g1 g2 g3 g4) gno ≡ 0)
      × (gset_memberp g3 (gs_twrng g1 g2 g3 g4) ≡ true)
      × (gno < g3)
unfolding gset_memberp gset_min_elem_greater_than
min_elem_misses_second_range g1 g2 g3 g4 gno p q r s = ground arith
