-- ===== src/Tests/Arrays.antt =====
-- An array of three generations.
use larceny.Base.{
  ℕ, ◌+◌, ◌≡◌, refl, ap, true, false, ◌∷◌, [], Option, some, none, Bool, not, ◌&&◌, ◌||◌, arith,
  has, ltb, ◌==◌, ◌-◌, span,
}
use larceny.Gset.{gs_range}
use larceny.Pool.{
  find_node, hash_object, push_node, clear_pool, create_pool, next_segment, scan_pool,
}
use larceny.Pool.Scan.{sift}
use larceny.Remset.{
  Remset, is_fixnum, rs_enumerate, rs_isremembered, rs_add_elem_new, rs_del_elem, rs_clear,
}
use larceny.Remset.Valid.{IsValid, rs_elements}
use larceny.UremsetArray.{
  Uremset, finds_sets, add_elems, is_remembered, clear_minor, copy_minor_to_major, scan_remset,
  enumerate_pair, enumerate, enumerate_complement,
}
use larceny.UremsetArray.Valid.{
  AllValid, either_has, reached, is_remembered-elements, add_elems-remembers, clear_minor-elements,
}
use larceny.UremsetArray.Enumerate.{visits, enumerate_pair-visits}
use larceny.UremsetArray.Copy.{copy_minor_to_major-elements}
use larceny.UremsetArray.All.{
  Enumerates, visited_gens, visits_gen, enumerate-Enumerates, enumerate_complement-Enumerates,
}
use larceny.Tests.Remsets.{one_word, one_word-IsValid, two_words, two_words-IsValid, gen_of_word}

abbrev three_gens : Uremset
three_gens = record { remset_count = 3; remset = λ _. two_words; major_remset = λ _. one_word }

three_gens-AllValid : AllValid three_gens
three_gens-AllValid = record { minor = λ _. two_words-IsValid; major = λ _. one_word-IsValid }

-- the scanner that counts its calls and accepts the words below 50
abbrev counter : ℕ → ℕ → Bool × ℕ
counter w n = (ltb w 50, n + 1)

abbrev value_at : ℕ → Option (ℕ → ℕ) → ℕ
value_at n none = 0
value_at n (some f) = f n

-- the static generation is the last one
static_last : (f : ℕ → ℕ) → some (λ _. 2) ≡ some f → (n : ℕ) → f n ≡ 3 - 1
static_last f h n = ground (arith, ap (value_at n) h)

-- the object of the buffer is of generation 1 or 2
logged_old :
    (x : ℕ)
    → has x (8 ∷ 34 ∷ []) ≡ true
    → is_fixnum x ≡ false
    → reached three_gens (gen_of_word x) ≡ true
logged_old x m f = ground arith

-- a word of generation 0 would be entered through the poisoned pointer
generation_0_fails : add_elems (λ _. 0) three_gens (34 ∷ []) ≡ none
unfolding add_elems finds_sets is_fixnum
generation_0_fails = refl

abbrev calls : Option (Uremset × ℕ) → Option ℕ
calls none = none
calls (some (urs, n)) = some n

-- two words in the minor set, one of them in the major set too
calls_of_two_rounds : calls (enumerate counter three_gens 0) ≡ some 4
unfolding enumerate scan_remset rs_enumerate scan_pool rs_isremembered rs_add_elem_new rs_del_elem
    rs_clear find_node hash_object push_node clear_pool create_pool next_segment span
calls_of_two_rounds = refl

is_remembered-elements_example :
    is_remembered gen_of_word three_gens 85
    ≡ some (not (gen_of_word 85 == 0) && either_has three_gens (gen_of_word 85) 85)
is_remembered-elements_example =
    is_remembered-elements gen_of_word three_gens 85 three_gens-AllValid (omega arith)

add_elems-remembers_example :
    (r : Uremset × Bool) × (add_elems gen_of_word three_gens (8 ∷ 34 ∷ []) ≡ some r)
    × AllValid r.0
    × (is_remembered gen_of_word r.0 34
        ≡ some (
            either_has three_gens (gen_of_word 34) 34
            || (has 34 (8 ∷ 34 ∷ []) && not (is_fixnum 34))))
add_elems-remembers_example =
    add_elems-remembers gen_of_word three_gens (8 ∷ 34 ∷ []) 34 three_gens-AllValid logged_old
      (omega arith) (omega arith)

clear_minor-elements_example :
    AllValid (clear_minor three_gens)
    × (has 85 (rs_elements ((clear_minor three_gens).remset 1))
        ≡ (not (reached three_gens 1) && has 85 (rs_elements (three_gens.remset 1))))
    × ((clear_minor three_gens).major_remset ≡ three_gens.major_remset)
clear_minor-elements_example = clear_minor-elements three_gens 1 85 three_gens-AllValid

copy_minor_to_major-elements_example :
    (r : Uremset) × (copy_minor_to_major three_gens ≡ some r)
    × AllValid r
    × ((g : ℕ) → rs_elements (r.remset g) ≡ rs_elements (three_gens.remset g))
    × ((g w : ℕ)
        → has w (rs_elements (r.major_remset g)) ≡ (
            has w (rs_elements (three_gens.major_remset g))
            || (reached three_gens g && has w (rs_elements (three_gens.remset g)))))
copy_minor_to_major-elements_example = copy_minor_to_major-elements three_gens three_gens-AllValid

enumerate_pair-visits_example :
    (r : Remset × Remset × ℕ) × (enumerate_pair counter two_words one_word 0 ≡ some r)
    × IsValid r.0
    × IsValid r.1
    × (r.2 ≡ (sift counter (visits two_words one_word) 0).1)
    × ((v : ℕ)
        → (has v (rs_elements r.0) || has v (rs_elements r.1))
          ≡ has v (sift counter (visits two_words one_word) 0).0)
enumerate_pair-visits_example =
    enumerate_pair-visits counter two_words one_word 0 two_words-IsValid one_word-IsValid

enumerate-Enumerates_example :
    Enumerates counter (span 1 2) three_gens 0 (enumerate counter three_gens 0)
enumerate-Enumerates_example = enumerate-Enumerates counter three_gens 0 three_gens-AllValid

enumerate_complement-Enumerates_example :
    Enumerates counter
      (visited_gens counter three_gens (gs_range 0 1) (some (λ _. 2)))
      three_gens
      0
      (enumerate_complement counter three_gens (gs_range 0 1) (some (λ _. 2)) 0)
    × ((g : ℕ)
        → has g (visited_gens counter three_gens (gs_range 0 1) (some (λ _. 2)))
          ≡ visits_gen counter three_gens (gs_range 0 1) (some (λ _. 2)) g)
enumerate_complement-Enumerates_example =
    enumerate_complement-Enumerates counter three_gens (gs_range 0 1) (some (λ _. 2)) 0
      three_gens-AllValid (omega arith) static_last
