-- ===== src/UremsetArray/Valid.antt =====
-- Insertion, membership and clearing over all generations.
use larceny.Base.{
  ℕ, zero, suc, ◌+◌, ◌-◌, ◌≡◌, refl, ap, ◌∙◌, ◌≢◌, ◌<◌, ◌≤◌, List, [], ◌∷◌, some, Bool, true, false,
  not, ◌||◌, ◌&&◌, arith, has, update, update_all, update_ne, ltb, ◌==◌, Bool-cases, inl, inr,
}
use larceny.Remset.{Remset, rs_clear, is_fixnum}
use larceny.Remset.Valid.{
  IsValid, rs_elements, rs_clear-IsValid, rs_isremembered-elements, clear-elements,
}
use larceny.Remset.Batch.{rs_add_elems_distribute-has}
use larceny.UremsetArray.{
  Uremset, finds_sets, add_elems, is_remembered, clear_from, clear_minor, or_else_test,
}

-- Both sets of every generation are valid.
pub record AllValid (urs : Uremset) : Type 0 where
  pub minor : (g : ℕ) → IsValid (urs.remset g)
  pub major : (g : ℕ) → IsValid (urs.major_remset g)

-- the word is in one of the two sets of generation `g`
abbrev pub either_has : Uremset → ℕ → ℕ → Bool
either_has urs g w = has w (rs_elements (urs.remset g)) || has w (rs_elements (urs.major_remset g))

-- generation `g` has sets, and the loops over all generations reach it
abbrev pub reached : Uremset → ℕ → Bool
reached urs g = ltb 0 g && ltb g urs.remset_count

or_else_test-some : (a b : Bool) → or_else_test (some a) (some b) ≡ some (a || b)
or_else_test-some true b = refl
or_else_test-some false b = refl

module _ (gen_of : ℕ → ℕ) where
  -- In valid sets the membership test ends. It answers, for a word that is not 0, whether the word
  -- is in one of the two sets of its generation, and `false` where that is generation 0.
  pub is_remembered-elements :
      (urs : Uremset) (w : ℕ)
      → AllValid urs
      → w ≢ 0
      → is_remembered gen_of urs w ≡ some (not (gen_of w == 0) && either_has urs (gen_of w) w)
  unfolding is_remembered
  is_remembered-elements urs w v n = elim (Bool-cases (gen_of w == 0)) [
    | inl young ↦ rw young refl
    | inr old ↦
        rw
          (
            old,
            rs_isremembered-elements (urs.remset (gen_of w)) w (v.minor (gen_of w)) n,
            rs_isremembered-elements (urs.major_remset (gen_of w)) w (v.major (gen_of w)) n,
          )
          (or_else_test-some _ _)
  ]

  all_old-finds_sets :
      (buffer : List ℕ)
      → ((x : ℕ) → has x buffer ≡ true → is_fixnum x ≡ false → gen_of x ≢ 0)
      → finds_sets gen_of buffer ≡ true
  unfolding finds_sets
  all_old-finds_sets [] old = refl
  all_old-finds_sets (w ∷ ws) old =
      let rest = all_old-finds_sets ws (λ x m. old x (ground (arith, m))) in
      elim (Bool-cases (is_fixnum w)) [
        | inl fix ↦ rw (fix, rest) refl
        | inr object ↦
            let mine : (gen_of w == 0) ≡ false = ground (arith, old w (ground arith) object) in
            rw (object, mine, rest) refl
      ]

  add_elems-run :
      (urs : Uremset) (buffer : List ℕ)
      → AllValid urs
      → finds_sets gen_of buffer ≡ true
      → (r : (ℕ → Remset) × Bool) × (add_elems gen_of urs buffer
          ≡ some (record urs { remset = r.0 }, r.1))
        × ((g : ℕ) → IsValid (r.0 g))
        × ((g v : ℕ)
            → has v (rs_elements (r.0 g)) ≡ (
                has v (rs_elements (urs.remset g))
                || (has v buffer && (not (is_fixnum v) && (gen_of v == g)))))
  unfolding add_elems
  add_elems-run urs [] v f = ((urs.remset, false), refl, v.minor, λ g x. ground arith)
  add_elems-run urs (w ∷ ws) v f =
      let (r, e, valid, members) = rs_add_elems_distribute-has gen_of urs.remset (w ∷ ws) v.minor in
      (r, rw (f, e, add_elems) refl, valid, members)

  -- Emptying a store buffer, of whose words those that are no fixnums are of the generations 1 to
  -- remset_count - 1, into valid sets ends and leaves valid sets. Afterwards a word of an older
  -- generation that is not 0 is remembered exactly if it was before, or is in the buffer and is no
  -- fixnum.
  pub add_elems-remembers :
      (urs : Uremset) (buffer : List ℕ) (w : ℕ)
      → AllValid urs
      → ((x : ℕ) → has x buffer ≡ true → is_fixnum x ≡ false → reached urs (gen_of x) ≡ true)
      → w ≢ 0
      → gen_of w ≢ 0
      → (r : Uremset × Bool) × (add_elems gen_of urs buffer ≡ some r)
        × AllValid r.0
        × (is_remembered gen_of r.0 w
            ≡ some (either_has urs (gen_of w) w || (has w buffer && not (is_fixnum w))))
  add_elems-remembers urs buffer w v logged n old =
      let found = all_old-finds_sets buffer (λ x m f. ground (arith, logged x m f)) in
      let (r, e, minor, members) = add_elems-run urs buffer v found in
      let valid : AllValid (record urs { remset = r.0 }) = record {
        minor = minor;
        major = v.major;
      } in
      (
        (record urs { remset = r.0 }, r.1),
        e,
        valid,
        is_remembered-elements (record urs { remset = r.0 }) w valid n
            ∙ ap some (ground (arith, members (gen_of w) w)),
      )

-- `n` rounds from generation `i` on clear those sets and no other.
clear_from-elements :
    (n i : ℕ) (remset : ℕ → Remset)
    → ((g : ℕ) → IsValid (remset g))
    → ((g : ℕ) → IsValid (clear_from n i remset g))
      × ((g : ℕ) → i ≤ g → g < i + n → rs_elements (clear_from n i remset g) ≡ [])
      × ((g : ℕ) → g < i → clear_from n i remset g ≡ remset g)
      × ((g : ℕ) → i + n ≤ g → clear_from n i remset g ≡ remset g)
unfolding clear_from
clear_from-elements zero i remset v = (v, λ g a b. absurd (omega arith), λ g a. refl, λ g a. refl)
clear_from-elements (suc n) i remset v =
    let cleared = rs_clear (remset i) in
    let next = update remset i cleared in
    let (valid, empty, below, above) =
      clear_from-elements n (i + 1) next
        (update_all IsValid remset i cleared (rs_clear-IsValid (remset i) (v i)).0 v) in
    (
      valid,
      λ g a b. elim (Bool-cases (g == i)) [
        | inl e ↦ rw (below g (ground arith), e) (clear-elements (remset i))
        | inr e ↦ empty g (ground arith) (omega arith)
      ],
      λ g a. below g (omega arith) ∙ update_ne remset i g cleared (λ e. omega arith),
      λ g a. above g (omega arith) ∙ update_ne remset i g cleared (λ e. omega arith),
    )

-- Clearing the minor sets of a valid array leaves a valid array. Of the generations 1 to
-- remset_count - 1 only the words of the major sets are still there; the other minor sets and all
-- major sets have the words that they had.
pub clear_minor-elements :
    (urs : Uremset) (g w : ℕ)
    → AllValid urs
    → AllValid (clear_minor urs)
      × (has w (rs_elements ((clear_minor urs).remset g))
          ≡ (not (reached urs g) && has w (rs_elements (urs.remset g))))
      × ((clear_minor urs).major_remset ≡ urs.major_remset)
unfolding clear_minor
clear_minor-elements urs g w v =
    let (valid, empty, below, above) =
      clear_from-elements (urs.remset_count - 1) 1 urs.remset v.minor in
    (
      record { minor = valid; major = v.major },
      elim (Bool-cases (reached urs g)) [
        | inl e ↦ rw (empty g (ground arith) (ground arith), e) refl
        | inr e ↦ elim (Bool-cases (ltb 0 g)) [
          | inl p ↦ rw (above g (ground arith), e) refl
          | inr z ↦ rw (below g (ground arith), e) refl
        ]
      ],
      refl,
    )
