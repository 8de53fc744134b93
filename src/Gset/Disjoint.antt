-- ===== src/Gset/Disjoint.antt =====
-- The disjointness test on two sets of generations.
use larceny.Base.{ℕ, ltb, leb, ◌<◌, ◌≡◌, refl, ◌↔◌, true, false, ◌&&◌, arith}
use larceny.Gset.{
  Gset, gs_nil, gs_singleton, gs_range, gs_twrng, IsProper, gset_memberp, gset_disjointp,
  ranges_disjointp,
}

disjointp_sound :
    (gs1 gs2 : Gset) (x : ℕ)
    → gset_disjointp gs1 gs2 ≡ true
    → (gset_memberp x gs1 && gset_memberp x gs2) ≡ false
unfolding gset_disjointp gset_memberp
disjointp_sound gs_nil gs2 x h = refl
disjointp_sound (gs_singleton a) gs_nil x h = ground arith
disjointp_sound (gs_singleton a) (gs_singleton b) x h = ground arith
disjointp_sound (gs_singleton a) (gs_range b c) x h = ground arith
disjointp_sound (gs_singleton a) (gs_twrng b c d e) x h = ground arith
disjointp_sound (gs_range a b) gs_nil x h = ground arith
disjointp_sound (gs_range a b) (gs_singleton c) x h = ground arith
disjointp_sound (gs_range a b) (gs_range c d) x h = ground arith
disjointp_sound (gs_range a b) (gs_twrng c d e f) x h = ground arith
disjointp_sound (gs_twrng a b c d) gs_nil x h = ground arith
disjointp_sound (gs_twrng a b c d) (gs_singleton e) x h = ground arith
disjointp_sound (gs_twrng a b c d) (gs_range e f) x h = ground arith
disjointp_sound (gs_twrng a b c d) (gs_twrng e f g i) x h = ground arith

-- If two ranges share no generation then one ends before the other starts.
ranges_apart :
    (a b e f : ℕ)
    → a < b
    → e < f
    → ((x : ℕ) → ((leb a x && ltb x b) && (leb e x && ltb x f)) ≡ false)
    → ranges_disjointp a b e f ≡ true
unfolding ranges_disjointp
ranges_apart a b e f p q h = ground (arith, h a, h e)

disjointp_complete :
    (gs1 gs2 : Gset)
    → IsProper gs1
    → IsProper gs2
    → ((x : ℕ) → (gset_memberp x gs1 && gset_memberp x gs2) ≡ false)
    → gset_disjointp gs1 gs2 ≡ true
unfolding gset_disjointp gset_memberp
disjointp_complete gs_nil gs2 p q h = refl
disjointp_complete (gs_singleton a) gs_nil p q h = ground (arith, h a)
disjointp_complete (gs_singleton a) (gs_singleton b) p q h = ground (arith, h a)
disjointp_complete (gs_singleton a) (gs_range b c) p q h = ground (arith, h a)
disjointp_complete (gs_singleton a) (gs_twrng b c d e) p q h = ground (arith, h a)
disjointp_complete (gs_range a b) gs_nil p q h = ground arith
disjointp_complete (gs_range a b) (gs_singleton c) p q h = ground (arith, h c)
disjointp_complete (gs_range a b) (gs_range c d) p q h = ground (arith, h a, h c)
disjointp_complete (gs_range a b) (gs_twrng c d e f) p q h = ground (arith, h a, h c, h e)
disjointp_complete (gs_twrng a b c d) gs_nil p q h = ground arith
disjointp_complete (gs_twrng a b c d) (gs_singleton e) p q h = ground (arith, h e)
disjointp_complete (gs_twrng a b c d) (gs_range e f) p q h = ground (arith, h a, h c, h e)
disjointp_complete (gs_twrng a b c d) (gs_twrng e f g i) p q h = rw (
  ranges_apart a b e f p.0 q.0 (λ x. ground (arith, h x)),
  ranges_apart c d e f p.1 q.0 (λ x. ground (arith, h x)),
  ranges_apart a b g i p.0 q.1 (λ x. ground (arith, h x)),
  ranges_apart c d g i p.1 q.1 (λ x. ground (arith, h x)),
)

-- Of two proper sets, the disjointness test holds exactly if no generation is in both.
pub disjointp_iff :
    (gs1 gs2 : Gset)
    → IsProper gs1
    → IsProper gs2
    → (gset_disjointp gs1 gs2 ≡ true)
      ↔ ((x : ℕ) → (gset_memberp x gs1 && gset_memberp x gs2) ≡ false)
disjointp_iff gs1 gs2 p q = (λ h x. disjointp_sound gs1 gs2 x h, disjointp_complete gs1 gs2 p q)
