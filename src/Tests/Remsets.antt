-- ===== src/Tests/Remsets.antt =====
-- A remembered set with a table of four buckets and segments of one node.
use larceny.Base.{
  ℕ, ◌+◌, ◌≡◌, refl, ◌∙◌, ap, ◌∷◌, [], ◌++◌, inr, some, Bool, true, false, not, ◌&&◌, ◌||◌, arith,
  has, ltb, ◌==◌, ◌%◌, span, if◌then◌else◌,
}
use larceny.Pool.{find_node, hash_object, push_node, clear_pool, create_pool, next_segment}
use larceny.Pool.Contents.{without}
use larceny.Pool.Clear.{create_pool-IsSound}
use larceny.Pool.Scan.{sift}
use larceny.Remset.{
  Remset, new_remset, create_remset, rs_clear, rs_add_elem, rs_add_elem_new, rs_del_elem,
  rs_isremembered, rs_enumerate, rs_add_elems_funnel, rs_add_elems_distribute, is_fixnum,
}
use larceny.Remset.Valid.{
  IsValid, rs_elements, clear-IsValid, clear-elements, create_remset-IsValid,
  rs_isremembered-elements,
}
use larceny.Remset.Ops.{
  rs_add_elem_new-IsValid, rs_add_elem-IsValid, rs_del_elem-IsValid, rs_enumerate-IsValid,
}
use larceny.Remset.Batch.{rs_add_elems_funnel-has, rs_add_elems_distribute-has}

abbrev no_words : Remset
no_words = rs_clear (new_remset 4 1)

no_words-IsValid : IsValid no_words
no_words-IsValid = clear-IsValid (new_remset 4 1) (create_pool-IsSound 4 1 (omega arith))

no_words-elements : rs_elements no_words ≡ []
no_words-elements = clear-elements (new_remset 4 1)

lacks_21 : has 21 (rs_elements no_words) ≡ false
lacks_21 = rw no_words-elements refl

-- the set of the word 21
abbrev pub one_word : Remset
one_word = (rs_add_elem_new no_words 21).0

pub one_word-IsValid : IsValid one_word
one_word-IsValid = (rs_add_elem_new-IsValid no_words 21 no_words-IsValid (omega arith) lacks_21).0

one_word-elements : rs_elements one_word ≡ 21 ∷ []
one_word-elements =
    (rs_add_elem_new-IsValid no_words 21 no_words-IsValid (omega arith) lacks_21).1
    ∙ ap (λ l. l ++ 21 ∷ []) no_words-elements

lacks_85 : has 85 (rs_elements one_word) ≡ false
lacks_85 = rw one_word-elements refl

-- the set of 21 and 85, which share a bucket and lie in two segments
abbrev pub two_words : Remset
two_words = (rs_add_elem_new one_word 85).0

pub two_words-IsValid : IsValid two_words
two_words-IsValid = (rs_add_elem_new-IsValid one_word 85 one_word-IsValid (omega arith) lacks_85).0

-- the scanner that counts its calls and accepts the words below 50
abbrev pub small_words : ℕ → ℕ × ℕ → Bool × (ℕ × ℕ)
small_words w (n, words) = (ltb w 50, (n + 1, words + 2))

-- a word is of the generation given by its remainder
abbrev pub gen_of_word : ℕ → ℕ
gen_of_word w = w % 3

finds_both :
    (rs_isremembered two_words 21 ≡ some true)
    × (rs_isremembered two_words 85 ≡ some true)
    × (rs_isremembered two_words 22 ≡ some false)
unfolding rs_isremembered rs_add_elem_new rs_clear find_node hash_object push_node clear_pool
    create_pool next_segment span
finds_both = (refl, refl, refl)

overflows : (rs_add_elem_new one_word 85).1 ≡ true
unfolding rs_add_elem_new rs_clear push_node clear_pool create_pool
overflows = refl

create_remset-IsValid_example :
    (rs : Remset) × (create_remset 16 0 ≡ some rs) × IsValid rs × (rs_elements rs ≡ [])
create_remset-IsValid_example = create_remset-IsValid 16 0 (inr (4, omega arith))

rs_isremembered-elements_example :
    rs_isremembered two_words 85 ≡ some (has 85 (rs_elements two_words))
rs_isremembered-elements_example =
    rs_isremembered-elements two_words 85 two_words-IsValid (omega arith)

rs_add_elem-IsValid_example :
    (r : Remset × Bool) × (rs_add_elem two_words 85 ≡ some r)
    × IsValid r.0
    × (rs_elements r.0 ≡ (
        if has 85 (rs_elements two_words)
        then rs_elements two_words
        else rs_elements two_words ++ 85 ∷ []))
    × (r ≡ (
        if has 85 (rs_elements two_words)
        then (two_words, false)
        else rs_add_elem_new two_words 85))
rs_add_elem-IsValid_example = rs_add_elem-IsValid two_words 85 two_words-IsValid (omega arith)

rs_del_elem-IsValid_example :
    (r : Remset) × (rs_del_elem two_words 21 ≡ some r)
    × IsValid r
    × (rs_elements r ≡ without 21 (rs_elements two_words))
rs_del_elem-IsValid_example = rs_del_elem-IsValid two_words 21 two_words-IsValid (omega arith)

rs_enumerate-IsValid_example :
    IsValid (rs_enumerate small_words two_words 0).0
    × (rs_elements (rs_enumerate small_words two_words 0).0
        ≡ (sift small_words (rs_elements two_words) (0, 0)).0)
    × ((rs_enumerate small_words two_words 0).1
        ≡ (sift small_words (rs_elements two_words) (0, 0)).1.0)
rs_enumerate-IsValid_example = rs_enumerate-IsValid small_words two_words 0 two_words-IsValid

rs_add_elems_funnel-has_example :
    (r : Remset × Bool) × (rs_add_elems_funnel two_words (8 ∷ 33 ∷ 85 ∷ []) ≡ some r)
    × IsValid r.0
    × ((v : ℕ)
        → has v (rs_elements r.0)
          ≡ (has v (rs_elements two_words) || (has v (8 ∷ 33 ∷ 85 ∷ []) && not (is_fixnum v))))
rs_add_elems_funnel-has_example =
    rs_add_elems_funnel-has two_words (8 ∷ 33 ∷ 85 ∷ []) two_words-IsValid

rs_add_elems_distribute-has_example :
    (r : (ℕ → Remset) × Bool) × (rs_add_elems_distribute gen_of_word
        (λ _. two_words)
        (8 ∷ 33 ∷ 86 ∷ [])
      ≡ some r)
    × ((g : ℕ) → IsValid (r.0 g))
    × ((g v : ℕ)
        → has v (rs_elements (r.0 g)) ≡ (
            has v (rs_elements two_words)
            || (has v (8 ∷ 33 ∷ 86 ∷ []) && (not (is_fixnum v) && (gen_of_word v == g)))))
rs_add_elems_distribute-has_example =
    rs_add_elems_distribute-has gen_of_word (λ _. two_words) (8 ∷ 33 ∷ 86 ∷ [])
      (λ _. two_words-IsValid)
