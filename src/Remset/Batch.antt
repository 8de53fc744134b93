-- ===== src/Remset/Batch.antt =====
-- The two ways to empty a store buffer into remembered sets.
use mathlib.Core.List.{reverse, reverse_aux}
use larceny.Base.{
  ℕ, ◌≡◌, refl, List, [], ◌∷◌, some, Bool, false, not, ◌||◌, ◌&&◌, arith, has, has-insert, update,
  update_all, ◌==◌, Bool-cases, inl, inr,
}
use larceny.Remset.{
  Remset, rs_add_elem, is_fixnum, add_elems_down, rs_add_elems_funnel, distribute_down,
  rs_add_elems_distribute,
}
use larceny.Remset.Valid.{IsValid, rs_elements}
use larceny.Remset.Ops.{rs_add_elem-IsValid}

has-reverse_aux : (v : ℕ) (xs ys : List ℕ) → has v (reverse_aux xs ys) ≡ (has v xs || has v ys)
has-reverse_aux v [] ys = refl
has-reverse_aux v (x ∷ xs) ys = ground (arith, has-reverse_aux v xs (x ∷ ys))

has-reverse : (v : ℕ) (xs : List ℕ) → has v (reverse xs) ≡ has v xs
has-reverse v xs = ground (arith, has-reverse_aux v xs [])

-- What one insertion does to membership.
pub rs_add_elem-has :
    (rs : Remset) (w : ℕ)
    → IsValid rs
    → is_fixnum w ≡ false
    → (r : Remset × Bool) × (rs_add_elem rs w ≡ some r)
      × IsValid r.0
      × ((v : ℕ) → has v (rs_elements r.0) ≡ (has v (rs_elements rs) || (v == w)))
rs_add_elem-has rs w v f =
    let (r, e, valid, grows, same) = rs_add_elem-IsValid rs w v (ground arith) in
    (r, e, valid, λ x. rw grows (has-insert x w (rs_elements rs)))

funnel-has :
    (ws : List ℕ) (rs : Remset) (overflowed : Bool)
    → IsValid rs
    → (r : Remset × Bool) × (add_elems_down ws rs overflowed ≡ some r)
      × IsValid r.0
      × ((v : ℕ)
          → has v (rs_elements r.0) ≡ (has v (rs_elements rs) || (has v ws && not (is_fixnum v))))
unfolding add_elems_down
funnel-has [] rs o v = ((rs, o), refl, v, λ x. ground arith)
funnel-has (w ∷ ws) rs o v = elim (Bool-cases (is_fixnum w)) [
  | inl fix ↦
      let (r, e, valid, members) = funnel-has ws rs o v in
      (r, rw fix e, valid, λ x. ground (arith, members x))
  | inr word ↦
      let (r, e, valid, members) = rs_add_elem-has rs w v word in
      let (r', e', valid', members') = funnel-has ws r.0 (o || r.1) valid in
      (r', rw (word, e) e', valid', λ x. ground (arith, members x, members' x))
]

-- Emptying a store buffer into a valid set ends and leaves a valid set, whose elements are those
-- from before and the words of the buffer that are no fixnums.
pub rs_add_elems_funnel-has :
    (rs : Remset) (buffer : List ℕ)
    → IsValid rs
    → (r : Remset × Bool) × (rs_add_elems_funnel rs buffer ≡ some r)
      × IsValid r.0
      × ((v : ℕ)
          → has v (rs_elements r.0)
            ≡ (has v (rs_elements rs) || (has v buffer && not (is_fixnum v))))
unfolding rs_add_elems_funnel
rs_add_elems_funnel-has rs buffer v =
    let (r, e, valid, members) = funnel-has (reverse buffer) rs false v in
    (r, e, valid, λ x. rw (members x, has-reverse x buffer) refl)

updated-has :
    (remset : ℕ → Remset) (i g x w : ℕ) (r : Remset)
    → has x (rs_elements r) ≡ (has x (rs_elements (remset i)) || (x == w))
    → has x (rs_elements (update remset i r g))
      ≡ (has x (rs_elements (remset g)) || ((x == w) && (i == g)))
updated-has remset i g x w r h = elim (Bool-cases (g == i)) [
  | inl e ↦ let same : g ≡ i = ground arith in rw (e, same) (ground (arith, h))
  | inr e ↦ rw e (ground arith)
]

module _ (gen_of : ℕ → ℕ) where
  distribute-has :
      (ws : List ℕ) (remset : ℕ → Remset) (overflowed : Bool)
      → ((g : ℕ) → IsValid (remset g))
      → (r : (ℕ → Remset) × Bool) × (distribute_down gen_of ws remset overflowed ≡ some r)
        × ((g : ℕ) → IsValid (r.0 g))
        × ((g v : ℕ)
            → has v (rs_elements (r.0 g)) ≡ (
                has v (rs_elements (remset g))
                || (has v ws && (not (is_fixnum v) && (gen_of v == g)))))
  unfolding distribute_down
  distribute-has [] remset o v = ((remset, o), refl, v, λ g x. ground arith)
  distribute-has (w ∷ ws) remset o v = elim (Bool-cases (is_fixnum w)) [
    | inl fix ↦
        let (r, e, valid, members) = distribute-has ws remset o v in
        (r, rw fix e, valid, λ g x. ground (arith, members g x))
    | inr word ↦
        let (r, e, valid, members) = rs_add_elem-has (remset (gen_of w)) w (v (gen_of w)) word in
        let next = update remset (gen_of w) r.0 in
        let next_valid : (g : ℕ) → IsValid (next g) =
          update_all IsValid remset (gen_of w) r.0 valid v in
        let (r', e', valid', members') = distribute-has ws next (o || r.1) next_valid in
        (
          r',
          rw (word, e) e',
          valid',
          λ g x. ground (arith, members' g x, updated-has remset (gen_of w) g x w r.0 (members x)),
        )
  ]

  -- Emptying a store buffer into valid sets ends and leaves valid sets: the set of a generation
  -- gains the words of the buffer of that generation that are no fixnums, and no other word.
  pub rs_add_elems_distribute-has :
      (remset : ℕ → Remset) (buffer : List ℕ)
      → ((g : ℕ) → IsValid (remset g))
      → (r : (ℕ → Remset) × Bool) × (rs_add_elems_distribute gen_of remset buffer ≡ some r)
        × ((g : ℕ) → IsValid (r.0 g))
        × ((g v : ℕ)
            → has v (rs_elements (r.0 g)) ≡ (
                has v (rs_elements (remset g))
                || (has v buffer && (not (is_fixnum v) && (gen_of v == g)))))
  unfolding rs_add_elems_distribute
  rs_add_elems_distribute-has remset buffer v =
      let (r, e, valid, members) = distribute-has (reverse buffer) remset false v in
      (r, e, valid, λ g x. rw (members g x, has-reverse x buffer) refl)
