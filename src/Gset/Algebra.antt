-- ===== src/Gset/Algebra.antt =====
-- Union, removal, emptiness and disjointness of sets of generations, by membership.
use larceny.Base.{ℕ, ◌≤◌, ◌<◌, ◌≡◌, refl, true, false, not, ◌&&◌, ◌||◌, some, arith, ◌==◌}
use larceny.Gset.{
  Gset, gs_nil, gs_singleton, gs_range, gs_twrng, IsProper, gset_memberp, gset_emptyp, gset_union,
  gset_remove,
}

-- What the assertions leave of a range that is put before a pair of ranges.
union_before :
    (e f a b c d : ℕ) (r : Gset)
    → e < f
    → a < b
    → c < d
    → gset_union (gs_range e f) (gs_twrng a b c d) ≡ some r
    → (r ≡ gs_twrng e b c d) × (d ≤ e) × (e ≤ a) × (a ≤ f)
unfolding gset_union gset_emptyp
union_before e f a b c d r p q s h = ground arith

memberp_before :
    (e f a b c d x : ℕ)
    → e < f
    → a < b
    → e ≤ a
    → f ≡ a
    → gset_memberp x (gs_twrng e b c d)
      ≡ (gset_memberp x (gs_range e f) || gset_memberp x (gs_twrng a b c d))
unfolding gset_memberp
memberp_before e f a b c d x p q h k = ground arith

touches :
    (e f a b c d : ℕ)
    → a < b
    → e ≤ a
    → a ≤ f
    → (gset_memberp a (gs_range e f) && gset_memberp a (gs_twrng a b c d)) ≡ false
    → f ≡ a
unfolding gset_memberp
touches e f a b c d p q h k = ground arith

-- Likewise of a range that extends the second range of a pair.
union_after :
    (a b c d e f : ℕ) (r : Gset)
    → a < b
    → c < d
    → e < f
    → gset_union (gs_twrng a b c d) (gs_range e f) ≡ some r
    → (r ≡ gs_twrng a b c f) × (f ≤ a) × (c ≤ e) × (e ≤ d)
unfolding gset_union gset_emptyp
union_after a b c d e f r p q s h = ground arith

memberp_after :
    (a b c d e f x : ℕ)
    → c < d
    → e < f
    → d ≡ e
    → gset_memberp x (gs_twrng a b c f)
      ≡ (gset_memberp x (gs_twrng a b c d) || gset_memberp x (gs_range e f))
unfolding gset_memberp
memberp_after a b c d e f x p q k = ground arith

extends :
    (a b c d e f : ℕ)
    → e < f
    → c ≤ e
    → e ≤ d
    → (gset_memberp e (gs_twrng a b c d) && gset_memberp e (gs_range e f)) ≡ false
    → d ≡ e
unfolding gset_memberp
extends a b c d e f p q h k = ground arith

-- Whenever the union of two proper disjoint sets passes the code's assertions, a generation is in the
-- result exactly if it is in one of the two.
pub memberp-union :
    (gs1 gs2 r : Gset) (x : ℕ)
    → IsProper gs1
    → IsProper gs2
    → ((y : ℕ) → (gset_memberp y gs1 && gset_memberp y gs2) ≡ false)
    → gset_union gs1 gs2 ≡ some r
    → gset_memberp x r ≡ (gset_memberp x gs1 || gset_memberp x gs2)
unfolding gset_memberp gset_union gset_emptyp
memberp-union gs_nil gs2 r x p q d e = ground arith
memberp-union (gs_singleton a) gs_nil r x p q d e = ground arith
memberp-union (gs_singleton a) (gs_singleton b) r x p q d e = ground arith
memberp-union (gs_singleton a) (gs_range b c) r x p q d e = ground arith
memberp-union (gs_singleton a) (gs_twrng b c g h) r x p q d e = ground arith
memberp-union (gs_range a b) gs_nil r x p q d e = ground arith
memberp-union (gs_range a b) (gs_singleton c) r x p q d e = ground arith
memberp-union (gs_range a b) (gs_range c g) r x p q d e = ground arith
memberp-union (gs_range a b) (gs_twrng c g h i) r x p q d e =
    let u = union_before a b c g h i r p q.0 q.1 e in
    rw u.0 (memberp_before a b c g h i x p q.0 u.2 (touches a b c g h i q.0 u.2 u.3 (d c)))
memberp-union (gs_twrng a b c g) gs_nil r x p q d e = ground arith
memberp-union (gs_twrng a b c g) (gs_singleton h) r x p q d e = ground arith
memberp-union (gs_twrng a b c g) (gs_range h i) r x p q d e =
    let u = union_after a b c g h i r p.0 p.1 q e in
    rw u.0 (memberp_after a b c g h i x p.1 q (extends a b c g h i q u.2 u.3 (d h)))
memberp-union (gs_twrng a b c g) (gs_twrng h i j k) r x p q d e = ground arith

-- Removing a member that the assertions let through removes that generation and no other, and
-- leaves a proper set.
pub memberp-remove :
    (gs r : Gset) (g x : ℕ)
    → IsProper gs
    → gset_memberp g gs ≡ true
    → gset_remove g gs ≡ some r
    → (gset_memberp x r ≡ (gset_memberp x gs && not (x == g))) × IsProper r
unfolding gset_memberp gset_remove
memberp-remove gs_nil r g x p m e = ground arith
memberp-remove (gs_singleton a) r g x p m e = ground arith
memberp-remove (gs_range a b) r g x p m e = ground arith
memberp-remove (gs_twrng a b c d) r g x p m e = ground arith

-- A set that the code calls empty has no member.
pub emptyp_sound : (gs : Gset) (x : ℕ) → gset_emptyp gs ≡ true → gset_memberp x gs ≡ false
unfolding gset_memberp gset_emptyp
emptyp_sound gs_nil x h = refl
emptyp_sound (gs_singleton a) x h = ground arith
emptyp_sound (gs_range a b) x h = ground arith
emptyp_sound (gs_twrng a b c d) x h = ground arith

-- A pair of empty ranges that start where they end is not called empty, though it has no member.
pub emptyp_misses :
    (a c x : ℕ)
    → (gset_emptyp (gs_twrng a a c c) ≡ false) × (gset_memberp x (gs_twrng a a c c) ≡ false)
unfolding gset_memberp gset_emptyp
emptyp_misses a c x = ground arith
