-- ===== src/Pool/Add.antt =====
-- The insertion as the sets make it: a full segment is left first.
use larceny.Base.{ℕ, ◌≡◌, refl, ◌≢◌, inl, inr, false, [], ◌∷◌, ◌++◌, arith, has, Bool-cases}
use larceny.Pool.{Pool, insert_node, is_full}
use larceny.Pool.Contents.{elements}
use larceny.Pool.Sound.{IsSound}
use larceny.Pool.Grow.{grown, next_segment-grown, slots-grown, grown-IsSound}
use larceny.Pool.Insert.{push_node-IsSound, elements-push_node}

pub elements-grown : (d : Pool) → elements (grown d) ≡ elements d
unfolding elements
elements-grown d = rw (slots-grown d) refl

module _ (d : Pool) (s : IsSound d) (w : ℕ) (nonzero : w ≢ 0)
    (out : has w (elements d) ≡ false) where
  pub insert_node-IsSound : IsSound (insert_node d w)
  unfolding insert_node
  insert_node-IsSound = elim (Bool-cases (is_full d)) [
    | inl full ↦
        rw (full, next_segment-grown d s.last)
          (push_node-IsSound (grown d) (grown-IsSound d s) w nonzero (rw (elements-grown d) out)
            (omega (arith, s.sized)))
    | inr room ↦ rw room (push_node-IsSound d s w nonzero out (ground (arith, s.bounded)))
  ]

  pub elements-insert_node : elements (insert_node d w) ≡ elements d ++ w ∷ []
  unfolding insert_node
  elements-insert_node = elim (Bool-cases (is_full d)) [
    | inl full ↦
        rw (full, next_segment-grown d s.last)
          (rw (elements-push_node (grown d) (grown-IsSound d s) w nonzero, elements-grown d) refl)
    | inr room ↦ rw room (elements-push_node d s w nonzero)
  ]
