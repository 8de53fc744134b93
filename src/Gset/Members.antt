-- ===== src/Gset/Members.antt =====
-- The lists of elements that the comment of gset_t.h gives, against the code's tests and counts.
use larceny.Base.{
  ℕ, ◌-◌, ◌≡◌, refl, List, [], ◌∷◌, ◌++◌, arith, length, length-append, has, has-append, span,
  has-span, length-span,
}
use larceny.Gset.{Gset, gs_nil, gs_singleton, gs_range, gs_twrng, gset_memberp, gset_count}

-- The interpretation of a set, as the comment at the top of gset_t.h spells it.
unfoldable pub elements : Gset → List ℕ
elements gs_nil = []
elements (gs_singleton g1) = g1 ∷ []
elements (gs_range g1 g2) = span g1 (g2 - g1)
elements (gs_twrng g1 g2 g3 g4) = span g1 (g2 - g1) ++ span g3 (g4 - g3)

-- The membership test holds exactly of the elements in the documented interpretation of a set,
-- and the count is the length of that list of elements, for every tag and all bounds.
pub memberp-elements :
    (gs : Gset) (x : ℕ)
    → (gset_memberp x gs ≡ has x (elements gs)) × (gset_count gs ≡ length (elements gs))
unfolding gset_memberp gset_count elements
memberp-elements gs_nil x = (refl, refl)
memberp-elements (gs_singleton g1) x = (ground arith, refl)
memberp-elements (gs_range g1 g2) x =
    (ground (arith, has-span x g1 (g2 - g1)), ground (arith, length-span g1 (g2 - g1)))
memberp-elements (gs_twrng g1 g2 g3 g4) x = (
  ground (
    arith,
    has-append x (span g1 (g2 - g1)) (span g3 (g4 - g3)),
    has-span x g1 (g2 - g1),
    has-span x g3 (g4 - g3),
  ),
  ground (
    arith,
    length-append (span g1 (g2 - g1)) (span g3 (g4 - g3)),
    length-span g1 (g2 - g1),
    length-span g3 (g4 - g3),
  ),
)
