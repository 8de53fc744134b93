-- ===== src/Gset.antt =====
-- Sets of generations: src/Rts/Sys/gset_t.h. A tagged struct is a data type with a constructor for
-- each tag. Generation numbers are natural numbers. The result of a function that asserts is an `Option`,
-- `none` for a failed `assert`; `assert2` is compiled out and has no clause.
pub mod Members
pub mod Algebra
pub mod Disjoint
pub mod Successor
use larceny.Base.{
  ℕ, suc, ◌+◌, ◌-◌, ◌≤◌, ◌<◌, min, ◌⊎◌, Bool, true, false, not, ◌&&◌, ◌||◌, Option, none, some, ltb,
  leb, ◌==◌, if◌then◌else◌,
}

pub data Gset : Type 0 where
  gs_nil : Gset
  gs_singleton : ℕ → Gset
  gs_range : ℕ → ℕ → Gset
  gs_twrng : ℕ → ℕ → ℕ → ℕ → Gset

unfoldable pub gset_younger_than : ℕ → Gset
gset_younger_than g2 = gs_range 0 g2

unfoldable pub gset_range_memberp : ℕ → ℕ → ℕ → Bool
gset_range_memberp gno g1 g2 = leb g1 gno && ltb gno g2

unfoldable pub gset_memberp : ℕ → Gset → Bool
unfolding gset_range_memberp
gset_memberp gno gs_nil = false
gset_memberp gno (gs_singleton g1) = g1 == gno
gset_memberp gno (gs_range g1 g2) = gset_range_memberp gno g1 g2
gset_memberp gno (gs_twrng g1 g2 g3 g4) = (leb g1 gno && ltb gno g2) || (leb g3 gno && ltb gno g4)

unfoldable pub gset_emptyp : Gset → Bool
gset_emptyp gs_nil = true
gset_emptyp (gs_singleton g1) = false
gset_emptyp (gs_range g1 g2) = leb g2 g1
gset_emptyp (gs_twrng g1 g2 g3 g4) = ltb g2 g1 && ltb g4 g3

-- `max(0, g2 - g1)` is the truncated subtraction.
unfoldable pub gset_count : Gset → ℕ
gset_count gs_nil = 0
gset_count (gs_singleton g1) = 1
gset_count (gs_range g1 g2) = g2 - g1
gset_count (gs_twrng g1 g2 g3 g4) = (g2 - g1) + (g4 - g3)

unfoldable pub gset_range_min_elem_greater_than : ℕ → ℕ → ℕ → ℕ
gset_range_min_elem_greater_than g1 g2 gno =
    if leb (gno + 1) g1 then g1 else if ltb (gno + 1) g2 then gno + 1 else 0

unfoldable pub gset_twrng_min_elem_greater_than : ℕ → ℕ → ℕ → ℕ → ℕ → ℕ
gset_twrng_min_elem_greater_than g1 g2 g3 g4 gno =
    if leb (gno + 1) (min g1 g3)
    then min g1 g3
    else if leb g1 (gno + 1) && ltb (gno + 1) g2
    then gno + 1
    else if leb g3 (gno + 1) && ltb (gno + 1) g4
    then gno + 1
    else 0

unfoldable pub gset_min_elem_greater_than : Gset → ℕ → ℕ
unfolding gset_range_min_elem_greater_than gset_twrng_min_elem_greater_than
gset_min_elem_greater_than gs_nil gno = 0
gset_min_elem_greater_than (gs_singleton g1) gno = if ltb gno g1 then g1 else 0
gset_min_elem_greater_than (gs_range g1 g2) gno = gset_range_min_elem_greater_than g1 g2 gno
gset_min_elem_greater_than (gs_twrng g1 g2 g3 g4) gno =
    gset_twrng_min_elem_greater_than g1 g2 g3 g4 gno

unfoldable pub gset_remove : ℕ → Gset → Option Gset
gset_remove gno gs_nil = none
gset_remove gno (gs_singleton g1) = some gs_nil
gset_remove gno (gs_range g1 g2) =
    if gno == g1 then some (if g1 + 1 == g2 then gs_nil else gs_range (g1 + 1) g2) else none
gset_remove gno (gs_twrng g1 g2 g3 g4) =
    if gno == g1 || gno == g3
    then some (
        if gno == g1
        then (if g1 + 1 == g2 then gs_range g3 g4 else gs_twrng (g1 + 1) g2 g3 g4)
        else (if g3 + 1 == g4 then gs_range g1 g2 else gs_twrng g1 g2 (g3 + 1) g4))
    else none

-- The tests on the tags, behind the two that return early.
unfoldable pub gset_union_nonempty : Gset → Gset → Option Gset
gset_union_nonempty (gs_range a b) (gs_range c d) =
    some (if c == b then gs_range a d else gs_twrng a b c d)
gset_union_nonempty (gs_twrng a b c d) (gs_range e f) =
    if leb f a && leb c e && leb e d then some (gs_twrng a b c f) else none
gset_union_nonempty (gs_range e f) (gs_twrng a b c d) =
    if leb d e && leb e a && leb a f then some (gs_twrng e b c d) else none
gset_union_nonempty _ _ = none

unfoldable pub gset_union : Gset → Gset → Option Gset
unfolding gset_union_nonempty
gset_union gs1 gs2 =
    if gset_emptyp gs1
    then some gs2
    else if gset_emptyp gs2
    then some gs1
    else gset_union_nonempty gs1 gs2

unfoldable pub ranges_disjointp : ℕ → ℕ → ℕ → ℕ → Bool
ranges_disjointp ralow ralim rblow rblim = leb ralim rblow || leb rblim ralow

unfoldable pub gset_disjointp : Gset → Gset → Bool
unfolding ranges_disjointp
gset_disjointp gs_nil gs2 = true
gset_disjointp (gs_singleton g1) gs2 = not (gset_memberp g1 gs2)
gset_disjointp gs1 gs_nil = true
gset_disjointp gs1 (gs_singleton g1) = not (gset_memberp g1 gs1)
gset_disjointp (gs_range a b) (gs_range e f) = ranges_disjointp a b e f
gset_disjointp (gs_range a b) (gs_twrng e f g h) =
    ranges_disjointp a b e f && ranges_disjointp a b g h
gset_disjointp (gs_twrng a b c d) (gs_range e f) =
    ranges_disjointp a b e f && ranges_disjointp c d e f
gset_disjointp (gs_twrng a b c d) (gs_twrng e f g h) =
    ranges_disjointp a b e f
    && ranges_disjointp c d e f
    && ranges_disjointp a b g h
    && ranges_disjointp c d g h

-- What the header's comment asks of a set: its ranges are not empty and do not overlap.
abbrev pub IsProper : Gset → Type 0
IsProper gs_nil = Unit {0}
IsProper (gs_singleton g1) = Unit {0}
IsProper (gs_range g1 g2) = g1 < g2
IsProper (gs_twrng g1 g2 g3 g4) = (g1 < g2) × (g3 < g4) × ((g2 ≤ g3) ⊎ (g4 ≤ g1))
