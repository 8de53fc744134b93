-- ===== src/UremsetArray/All.antt =====
-- The enumerations over several generations.
use larceny.Base.{
  ℕ, zero, suc, ◌+◌, ◌-◌, ◌≡◌, refl, ap, ◌∙◌, sym, ◌⊎◌, List, [], ◌∷◌, ◌++◌, Option, none, some,
  Bool, true, false, arith, has, ==_iff, ◌≢◌, not, ◌&&◌, ◌<◌, IsDistinct, update, update_all,
  update_ne, span, has-span, ◌==◌, if◌then◌else◌, Bool-cases, Option-cases, inl, inr,
}
use larceny.Gset.{Gset, gset_memberp}
use larceny.Pool.Scan.{sift}
use larceny.Remset.{Remset}
use larceny.Remset.Valid.{IsValid}
use larceny.UremsetArray.{
  Uremset, enumerate_both, enumerate_from, enumerate, complement_from, enumerate_complement,
}
use larceny.UremsetArray.Static.{static_both}
use larceny.UremsetArray.Visit.{sift-append}
use larceny.UremsetArray.Valid.{AllValid, reached}
use larceny.UremsetArray.Enumerate.{visits, enumerate_pair-visits}

-- The words visited for the generations `gens`.
unfoldable pub all_visits : List ℕ → Uremset → List ℕ
all_visits [] urs = []
all_visits (g ∷ gens) urs = visits (urs.remset g) (urs.major_remset g) ++ all_visits gens urs

-- the numbers of `gens` that are not in the set
unfoldable pub complement : List ℕ → Gset → List ℕ
complement [] gset = []
complement (g ∷ gens) gset =
    let rest = complement gens gset in if gset_memberp g gset then rest else g ∷ rest

has-complement :
    (g : ℕ) (gens : List ℕ) (gset : Gset)
    → has g gens ≡ false
    → has g (complement gens gset) ≡ false
unfolding complement
has-complement g [] gset h = h
has-complement g (x ∷ xs) gset h = ground (arith, has-complement g xs gset)

has-complement_iff :
    (g : ℕ) (gens : List ℕ) (gset : Gset)
    → has g (complement gens gset) ≡ (has g gens && not (gset_memberp g gset))
unfolding complement
has-complement_iff g [] gset = refl
has-complement_iff g (x ∷ xs) gset =
    let rest = has-complement_iff g xs gset in
    elim (Bool-cases (g == x)) [
      | inl here ↦
          let same = (==_iff g x).0 here in
          elim (Bool-cases (gset_memberp g gset)) [
            | inl member ↦ ground (arith, ap (λ y. gset_memberp y gset) same)
            | inr out ↦ ground (arith, ap (λ y. gset_memberp y gset) same)
          ]
      | inr away ↦ ground arith
    ]

complement-IsDistinct :
    (gens : List ℕ) (gset : Gset) → IsDistinct gens → IsDistinct (complement gens gset)
unfolding complement
complement-IsDistinct [] gset d = tt
complement-IsDistinct (g ∷ gens) gset d = elim (Bool-cases (gset_memberp g gset)) [
  | inl e ↦ rw e (complement-IsDistinct gens gset d.1)
  | inr e ↦ rw e (has-complement g gens gset d.0, complement-IsDistinct gens gset d.1)
]

span-IsDistinct : (n low : ℕ) → IsDistinct (span low n)
unfolding span
span-IsDistinct zero low = tt
span-IsDistinct (suc n) low =
    (ground (arith, has-span low (low + 1) n), span-IsDistinct n (low + 1))

module _ {S : Type 0} (scanner : ℕ → S → Bool × S) where
  -- the loops as one loop over a list of generations
  unfoldable run : List ℕ → Uremset → S → Option (Uremset × S)
  run [] urs s = some (urs, s)
  run (g ∷ gens) urs s = elim (enumerate_both scanner urs g s) [
    | none ↦ none
    | some (urs', t) ↦ run gens urs' t
  ]

  enumerate_from-run :
      (n i : ℕ) (urs : Uremset) (s : S) → enumerate_from scanner n i urs s ≡ run (span i n) urs s
  unfolding enumerate_from run span
  enumerate_from-run zero i urs s = refl
  enumerate_from-run (suc n) i urs s = elim (Option-cases (enumerate_both scanner urs i s)) [
    | inl e ↦ rw (e, enumerate_from, run) refl
    | inr (r, e) ↦ rw (e, enumerate_from, run) (enumerate_from-run n (i + 1) r.0 r.1)
  ]

  complement_from-run :
      (n i : ℕ) (gset : Gset) (urs : Uremset) (s : S)
      → complement_from scanner n i gset urs s ≡ run (complement (span i n) gset) urs s
  unfolding complement_from run complement span
  complement_from-run zero i gset urs s = refl
  complement_from-run (suc n) i gset urs s = elim (Bool-cases (gset_memberp i gset)) [
    | inl e ↦ rw e (complement_from-run n (i + 1) gset urs s)
    | inr e ↦ elim (Option-cases (enumerate_both scanner urs i s)) [
      | inl f ↦ rw (e, f, complement_from, run) refl
      | inr (r, f) ↦ rw (e, f, complement_from, run) (complement_from-run n (i + 1) gset r.0 r.1)
    ]
  ]

  all_visits-frame :
      (gens : List ℕ) (g : ℕ) (urs : Uremset) (a b : Remset)
      → has g gens ≡ false
      → all_visits gens (record urs {
        remset = update urs.remset g a;
        major_remset = update urs.major_remset g b;
      })
        ≡ all_visits gens urs
  unfolding all_visits
  all_visits-frame [] g urs a b h = refl
  all_visits-frame (x ∷ gens) g urs a b h =
      rw
        (
          update_ne urs.remset g x a (ground arith),
          update_ne urs.major_remset g x b (ground arith),
          all_visits-frame gens g urs a b (ground arith),
        )
        refl

  enumerate_both-visits :
      (urs : Uremset) (g : ℕ) (s : S)
      → AllValid urs
      → (r : Remset × Remset × S) × (enumerate_both scanner urs g s
          ≡ some (
            record urs {
              remset = update urs.remset g r.0;
              major_remset = update urs.major_remset g r.1;
            },
            r.2,
          ))
        × IsValid r.0
        × IsValid r.1
        × (r.2 ≡ (sift scanner (visits (urs.remset g) (urs.major_remset g)) s).1)
  unfolding enumerate_both
  enumerate_both-visits urs g s v =
      let (r, e, a, b, state, members) =
        enumerate_pair-visits scanner (urs.remset g) (urs.major_remset g) s (v.minor g)
          (v.major g) in
      (r, rw (e, enumerate_both) refl, a, b, state)

  -- What enumerating the generations `gens` promises of the result `o`.
  abbrev pub Enumerates : List ℕ → Uremset → S → Option (Uremset × S) → Type 0
  Enumerates gens urs s o =
      (r : Uremset × S) × (o ≡ some r)
      × AllValid r.0
      × (r.1 ≡ (sift scanner (all_visits gens urs) s).1)
      × ((g : ℕ)
          → (has g gens ≡ true)
            ⊎ ((r.0.remset g ≡ urs.remset g) × (r.0.major_remset g ≡ urs.major_remset g)))

  run-Enumerates :
      (gens : List ℕ) (urs : Uremset) (s : S)
      → AllValid urs
      → IsDistinct gens
      → Enumerates gens urs s (run gens urs s)
  unfolding run all_visits sift
  run-Enumerates [] urs s v d = ((urs, s), refl, v, refl, λ g. inr (refl, refl))
  run-Enumerates (x ∷ gens) urs s v d =
      let (r, e, a, b, state) = enumerate_both-visits urs x s v in
      let next : Uremset = record urs {
        remset = update urs.remset x r.0;
        major_remset = update urs.major_remset x r.1;
      } in
      let next_valid : AllValid next = record {
        minor = update_all IsValid urs.remset x r.0 a v.minor;
        major = update_all IsValid urs.major_remset x r.1 b v.major;
      } in
      let (q, f, all, last, others) = run-Enumerates gens next r.2 next_valid d.1 in
      (
        q,
        rw (e, run) f,
        all,
        last
            ∙ ap (λ l. (sift scanner l r.2).1) (all_visits-frame gens x urs r.0 r.1 d.0)
            ∙ ap (λ t. (sift scanner (all_visits gens urs) t).1) state
            ∙ ap (λ p. p.1)
                (sym (
                  sift-append scanner (visits (urs.remset x) (urs.major_remset x))
                    (all_visits gens urs) s)),
        λ g. elim (Bool-cases (g == x)) [
          | inl here ↦ inl (ground arith)
          | inr away ↦ elim (others g) [
            | inl there ↦ inl (ground arith)
            | inr (p, p') ↦ inr (
              p ∙ update_ne urs.remset x g r.0 (ground arith),
              p' ∙ update_ne urs.major_remset x g r.1 (ground arith),
            )
          ]
        ],
      )

  -- Enumerating valid sets ends and leaves valid sets. The scanner is called in order on the words
  -- of the generations 1 to remset_count - 1, for each on the minor elements that are not major ones
  -- and then on the major ones; the sets of other generations are not touched.
  pub enumerate-Enumerates :
      (urs : Uremset) (s : S)
      → AllValid urs
      → Enumerates (span 1 (urs.remset_count - 1)) urs s (enumerate scanner urs s)
  unfolding enumerate
  enumerate-Enumerates urs s v = rw (enumerate_from-run (urs.remset_count - 1) 1 urs s) (
      run-Enumerates (span 1 (urs.remset_count - 1)) urs s v
        (span-IsDistinct (urs.remset_count - 1) 1))

  static-run :
      (urs : Uremset) (gset : Gset) (last_gno : S → ℕ) (g : ℕ) (s : S)
      → ((t : S) → last_gno t ≡ g)
      → g ≢ 0
      → enumerate_complement scanner urs gset (some last_gno) s
        ≡ run (g ∷ complement (span 1 (urs.remset_count - 2)) gset) urs s
  unfolding enumerate_complement run
  static-run urs gset last_gno g s fixed old =
      let both = static_both scanner last_gno urs g s fixed old in
      elim (Option-cases (enumerate_both scanner urs g s)) [
        | inl e ↦ rw (both, e, enumerate_complement, run) refl
        | inr (r, e) ↦
            rw (both, e, enumerate_complement, run)
              (complement_from-run (urs.remset_count - 2) 1 gset r.0 r.1)
      ]

  -- The generations that an enumeration of the complement of a set visits: the static one first,
  -- where there is one, then those of 1 to remset_count - 2 that are not in the set.
  abbrev pub visited_gens : Uremset → Gset → Option (S → ℕ) → List ℕ
  visited_gens urs gset none = complement (span 1 (urs.remset_count - 2)) gset
  visited_gens urs gset (some _) =
      (urs.remset_count - 1) ∷ complement (span 1 (urs.remset_count - 2)) gset

  -- which generations these are
  abbrev pub visits_gen : Uremset → Gset → Option (S → ℕ) → ℕ → Bool
  visits_gen urs gset static_area g =
      if g == urs.remset_count - 1
      then elim static_area [ none ↦ false | some _ ↦ true ]
      else reached urs g && not (gset_memberp g gset)

  visits_gen-visited_gens :
      (urs : Uremset) (gset : Gset) (static_area : Option (S → ℕ)) (g : ℕ)
      → 1 < urs.remset_count
      → has g (visited_gens urs gset static_area) ≡ visits_gen urs gset static_area g
  visits_gen-visited_gens urs gset none g large = ground (
    arith,
    has-complement_iff g (span 1 (urs.remset_count - 2)) gset,
    has-span g 1 (urs.remset_count - 2),
  )
  visits_gen-visited_gens urs gset (some _) g large = ground (
    arith,
    has-complement_iff g (span 1 (urs.remset_count - 2)) gset,
    has-span g 1 (urs.remset_count - 2),
  )

  -- Over valid sets of at least two generations, where the scanner leaves the collector's number of
  -- generations at remset_count, enumerating the complement of a set of generations ends and leaves
  -- valid sets. The scanner is called on the words of the last generation first, if there is a static
  -- area and whether or not the set has that generation, and then on those of each earlier generation
  -- from 1 on that the set does not have, in order; without a static area the last generation is not
  -- visited. The sets of other generations are not touched.
  pub enumerate_complement-Enumerates :
      (urs : Uremset) (gset : Gset) (static_area : Option (S → ℕ)) (s : S)
      → AllValid urs
      → 1 < urs.remset_count
      → ((last_gno : S → ℕ)
          → static_area ≡ some last_gno
          → (t : S) → last_gno t ≡ urs.remset_count - 1)
      → Enumerates
          (visited_gens urs gset static_area)
          urs
          s
          (enumerate_complement scanner urs gset static_area s)
        × ((g : ℕ) → has g (visited_gens urs gset static_area) ≡ visits_gen urs gset static_area g)
  unfolding enumerate_complement
  enumerate_complement-Enumerates urs gset none s v large l = (
    rw (complement_from-run (urs.remset_count - 2) 1 gset urs s) (
        run-Enumerates (complement (span 1 (urs.remset_count - 2)) gset) urs s v
          (complement-IsDistinct _ gset (span-IsDistinct (urs.remset_count - 2) 1))),
    λ g. visits_gen-visited_gens urs gset none g large,
  )
  enumerate_complement-Enumerates urs gset (some last_gno) s v large l =
      let last = urs.remset_count - 1 in
      let earlier = span 1 (urs.remset_count - 2) in
      (
        rw (static-run urs gset last_gno last s (l last_gno refl) (λ e. omega (arith, e))) (
            run-Enumerates (last ∷ complement earlier gset) urs s v (
              has-complement last earlier gset
                  (ground (arith, has-span last 1 (urs.remset_count - 2))),
              complement-IsDistinct _ gset (span-IsDistinct (urs.remset_count - 2) 1),
            )),
        λ g. visits_gen-visited_gens urs gset (some last_gno) g large,
      )
