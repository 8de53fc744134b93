-- ===== src/Tests/Sets.antt =====
-- Sets of generations with few elements.
use larceny.Base.{
  ℕ, ◌<◌, ◌≡◌, ◌≢◌, refl, ◌↔◌, inl, true, false, not, ◌&&◌, ◌||◌, some, arith, has, length, ◌==◌,
  ltb,
}
use larceny.Gset.{
  Gset, gs_range, gs_twrng, IsProper, gset_memberp, gset_count, gset_emptyp, gset_union,
  gset_remove, gset_disjointp, gset_min_elem_greater_than,
}
use larceny.Gset.Members.{elements, memberp-elements}
use larceny.Gset.Algebra.{memberp-union, memberp-remove, emptyp_sound, emptyp_misses}
use larceny.Gset.Disjoint.{disjointp_iff}
use larceny.Gset.Successor.{min_elem_least, min_elem_misses_second_range}

-- the generations 1, 2, 5 and 6
abbrev two_ranges : Gset
two_ranges = gs_twrng 1 3 5 7

two_ranges-IsProper : IsProper two_ranges
two_ranges-IsProper = (omega arith, omega arith, inl (omega arith))

ranges_apart : (y : ℕ) → (gset_memberp y (gs_range 1 3) && gset_memberp y (gs_range 5 7)) ≡ false
unfolding gset_memberp
ranges_apart y = ground arith

union_of_ranges : gset_union (gs_range 1 3) (gs_range 5 7) ≡ some two_ranges
unfolding gset_union gset_emptyp
union_of_ranges = refl

remove_first : gset_remove 5 two_ranges ≡ some (gs_twrng 1 3 6 7)
unfolding gset_remove
remove_first = refl

five_there : gset_memberp 5 two_ranges ≡ true
unfolding gset_memberp
five_there = refl

empty_range : gset_emptyp (gs_range 4 4) ≡ true
unfolding gset_emptyp
empty_range = refl

after_two : gset_min_elem_greater_than (gs_range 2 6) 3 ≢ 0
unfolding gset_min_elem_greater_than
after_two = omega arith

after_six : gset_min_elem_greater_than (gs_range 2 6) 5 ≡ 0
unfolding gset_min_elem_greater_than
after_six = refl

-- a set of another tag than the two ranges
single_tag : (a b c d : ℕ) → gs_range 2 6 ≢ gs_twrng a b c d
single_tag a b c d h = ground arith

memberp-elements_example :
    (gset_memberp 6 two_ranges ≡ has 6 (elements two_ranges))
    × (gset_count two_ranges ≡ length (elements two_ranges))
memberp-elements_example = memberp-elements two_ranges 6

memberp-union_example :
    gset_memberp 6 two_ranges ≡ (gset_memberp 6 (gs_range 1 3) || gset_memberp 6 (gs_range 5 7))
memberp-union_example =
    memberp-union (gs_range 1 3) (gs_range 5 7) two_ranges 6 (omega arith) (omega arith)
      ranges_apart union_of_ranges

memberp-remove_example :
    (gset_memberp 6 (gs_twrng 1 3 6 7) ≡ (gset_memberp 6 two_ranges && not (6 == 5)))
    × IsProper (gs_twrng 1 3 6 7)
memberp-remove_example =
    memberp-remove two_ranges (gs_twrng 1 3 6 7) 5 6 two_ranges-IsProper five_there remove_first

emptyp_sound_example : gset_memberp 4 (gs_range 4 4) ≡ false
emptyp_sound_example = emptyp_sound (gs_range 4 4) 4 empty_range

emptyp_misses_example :
    (gset_emptyp (gs_twrng 2 2 3 3) ≡ false) × (gset_memberp 2 (gs_twrng 2 2 3 3) ≡ false)
emptyp_misses_example = emptyp_misses 2 3 2

disjointp_iff_example :
    (gset_disjointp two_ranges (gs_range 3 5) ≡ true)
    ↔ ((x : ℕ) → (gset_memberp x two_ranges && gset_memberp x (gs_range 3 5)) ≡ false)
disjointp_iff_example = disjointp_iff two_ranges (gs_range 3 5) two_ranges-IsProper (omega arith)

min_elem_least_example :
    (gset_memberp (gset_min_elem_greater_than (gs_range 2 6) 3) (gs_range 2 6) ≡ true)
    × (3 < gset_min_elem_greater_than (gs_range 2 6) 3)
    × ((gset_memberp 4 (gs_range 2 6)
          && (ltb 3 4 && ltb 4 (gset_min_elem_greater_than (gs_range 2 6) 3)))
        ≡ false)
min_elem_least_example = min_elem_least (gs_range 2 6) 3 4 (omega arith) after_two

min_elem_misses_second_range_example :
    (gset_min_elem_greater_than two_ranges 3 ≡ 0) × (gset_memberp 5 two_ranges ≡ true) × (3 < 5)
min_elem_misses_second_range_example =
    min_elem_misses_second_range 1 3 5 7 3 (omega arith) (omega arith) (omega arith) (omega arith)
