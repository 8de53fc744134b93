-- ===== src/Locset/Batch.antt =====
-- Copying one location set into another, and emptying a log of slots into a set.
use larceny.Base.{
  ℕ, ◌%◌, ◌≡◌, refl, ap, ◌∙◌, ◌≢◌, List, [], ◌∷◌, some, true, false, ◌&&◌, ◌||◌, arith, has,
  has-insert, ◌==◌, Bool-cases, inl, inr,
}
use larceny.Pool.{slots}
use larceny.Pool.Contents.{elements, contents_witness}
use larceny.Pool.Scan.{sift}
use larceny.Locset.{
  Locset, ls_add_loc, make_loc, ls_add_obj_offset, scan_add_loc, ls_copy_all_from,
  ls_add_elems_funnel,
}
use larceny.Locset.Valid.{IsValid, ls_elements, ls_add_loc-IsValid, ls_enumerate_locs-IsValid}

-- What one insertion does to membership.
add_loc-has :
    (ls : Locset) (loc : ℕ)
    → IsValid ls
    → loc ≢ 0
    → (r : Locset) × (ls_add_loc ls loc ≡ some r)
      × IsValid r
      × ((x : ℕ) → has x (ls_elements r) ≡ (has x (ls_elements ls) || (x == loc)))
add_loc-has ls loc v n =
    let (r, e, valid, grows) = ls_add_loc-IsValid ls loc v n in
    (r, e, valid, λ x. rw grows (has-insert x loc (ls_elements ls)))

no_null : (ls : Locset) → has 0 (ls_elements ls) ≡ false
unfolding elements
no_null ls = elim (Bool-cases (has 0 (ls_elements ls))) [
  | inr h ↦ h
  | inl h ↦ let (a, m, o, n) = contents_witness ls.pool.mem (slots ls.pool) 0 h in absurd (n refl)
]

copy-has :
    (xs : List ℕ) (ls : Locset)
    → IsValid ls
    → has 0 xs ≡ false
    → (r : Locset) × (sift scan_add_loc xs (some ls) ≡ (xs, some r))
      × IsValid r
      × ((x : ℕ) → has x (ls_elements r) ≡ (has x (ls_elements ls) || has x xs))
unfolding sift scan_add_loc
copy-has [] ls v z = (ls, refl, v, λ x. ground arith)
copy-has (y ∷ ys) ls v z =
    let (r, e, valid, members) = add_loc-has ls y v (ground arith) in
    let (r', e', valid', members') = copy-has ys r valid (ground arith) in
    (r', rw (e, e') refl, valid', λ x. ground (arith, members x, members' x))

-- Copying a valid set into a valid set ends: the target stays valid and has the locations of both,
-- and the source stays valid with the same locations.
pub ls_copy_all_from-has :
    (ls source : Locset)
    → IsValid ls
    → IsValid source
    → IsValid (ls_copy_all_from ls source).0
      × (ls_elements (ls_copy_all_from ls source).0 ≡ ls_elements source)
      × (r : Locset) × ((ls_copy_all_from ls source).1 ≡ some r)
      × IsValid r
      × ((x : ℕ) → has x (ls_elements r) ≡ (has x (ls_elements ls) || has x (ls_elements source)))
unfolding ls_copy_all_from
ls_copy_all_from-has ls source v w =
    let (kept, same, state) = ls_enumerate_locs-IsValid scan_add_loc source (some ls) w in
    let (r, e, valid, members) = copy-has (ls_elements source) ls v (no_null source) in
    (kept, same ∙ ap (λ p. p.0) e, r, state ∙ ap (λ p. p.1) e, valid, members)

-- the words of a log of slots, each given by its object and its offset
abbrev pub words_of : List (ℕ × ℕ) → List ℕ
words_of [] = []
words_of ((obj, offset) ∷ ps) = obj ∷ offset ∷ words_of ps

-- what the assertions and the set ask of each entry
abbrev pub IsLog : List (ℕ × ℕ) → Type 0
IsLog [] = Unit {0}
IsLog ((obj, offset) ∷ ps) = (obj % 2 ≡ 1) × (offset % 4 ≡ 0) × (make_loc obj offset ≢ 0) × IsLog ps

abbrev pub locs_of : List (ℕ × ℕ) → List ℕ
locs_of [] = []
locs_of ((obj, offset) ∷ ps) = make_loc obj offset ∷ locs_of ps

funnel_step :
    (ls r : Locset) (obj offset : ℕ) (ws : List ℕ)
    → obj % 2 ≡ 1
    → offset % 4 ≡ 0
    → ls_add_loc ls (make_loc obj offset) ≡ some r
    → ls_add_elems_funnel ls (obj ∷ offset ∷ ws) ≡ ls_add_elems_funnel r ws
unfolding ls_add_elems_funnel ls_add_obj_offset
funnel_step ls r obj offset ws p q e =
    let tags : ((obj % 2 == 1) && (offset % 4 == 0)) ≡ true = ground arith in
    let aligned : (offset % 4 == 0) ≡ true = ground arith in rw (tags, aligned, e) refl

funnel-nil : (ls : Locset) → ls_add_elems_funnel ls [] ≡ some ls
unfolding ls_add_elems_funnel
funnel-nil ls = refl

-- Emptying a log of object and offset pairs into a valid set ends and leaves a valid set with the
-- locations from before and the slots of the log, when the assertions hold and no slot is NULL.
pub ls_add_elems_funnel-has :
    (ps : List (ℕ × ℕ)) (ls : Locset)
    → IsValid ls
    → IsLog ps
    → (r : Locset) × (ls_add_elems_funnel ls (words_of ps) ≡ some r)
      × IsValid r
      × ((x : ℕ) → has x (ls_elements r) ≡ (has x (ls_elements ls) || has x (locs_of ps)))
ls_add_elems_funnel-has [] ls v l = (ls, funnel-nil ls, v, λ x. ground arith)
ls_add_elems_funnel-has ((obj, offset) ∷ ps) ls v l =
    let (r, e, valid, members) = add_loc-has ls (make_loc obj offset) v l.2 in
    let (r', e', valid', members') = ls_add_elems_funnel-has ps r valid l.3 in
    (
      r',
      funnel_step ls r obj offset (words_of ps) l.0 l.1 e ∙ e',
      valid',
      λ x. ground (arith, members x, members' x),
    )
