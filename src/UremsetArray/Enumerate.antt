-- ===== src/UremsetArray/Enumerate.antt =====
-- Enumeration of one generation: each remembered word is visited once.
use larceny.Base.{
  ℕ, ◌≡◌, refl, ap, sym, ◌∙◌, List, ◌++◌, Option, none, some, Bool, false, ◌||◌, arith, has,
  has-append, Bool-cases, inl, inr,
}
use larceny.Pool.{slots}
use larceny.Pool.Contents.{elements, contents_witness}
use larceny.Pool.Scan.{sift}
use larceny.Remset.{Remset}
use larceny.Remset.Valid.{IsValid, rs_elements, elements-IsDistinct}
use larceny.Remset.Ops.{rs_enumerate-IsValid}
use larceny.UremsetArray.{apply_scanner_to_rs, scan_remset, enumerate_pair}
use larceny.UremsetArray.Visit.{outside, has-outside, has-sift, sift-append, filtered, mirrored}

pub no_null : (rs : Remset) → has 0 (rs_elements rs) ≡ false
unfolding elements
no_null rs = elim (Bool-cases (has 0 (rs_elements rs))) [
  | inr h ↦ h
  | inl h ↦ let (a, m, o, n) = contents_witness rs.pool.mem (slots rs.pool) 0 h in absurd (n refl)
]

-- What is visited of a generation: the minor elements that are not major ones, then the major ones.
abbrev pub visits : Remset → Remset → List ℕ
visits minor major = outside (rs_elements minor) (rs_elements major) ++ rs_elements major

module _ {S : Type 0} (scanner : ℕ → S → Bool × S) where
  -- the scan of one set in terms of its elements
  scan_remset-sift :
      (rs : Remset) (f m : Option Remset) (s : S)
      → IsValid rs
      → let r = sift (apply_scanner_to_rs scanner f) (rs_elements rs) (some (s, m), 0) in
        IsValid (scan_remset scanner rs f m s).0
        × (rs_elements (scan_remset scanner rs f m s).0 ≡ r.0)
        × ((scan_remset scanner rs f m s).1 ≡ r.1.0)
  unfolding scan_remset
  scan_remset-sift rs f m s v =
      rs_enumerate-IsValid (apply_scanner_to_rs scanner f) rs (some (s, m)) v

  -- the run of the two scans, given what each one returns
  pair-run :
      (minor major : Remset) (s t u : S) (o : Option Remset) (m : Remset)
      → let (minor', first) = scan_remset scanner minor (some major) none s in
        (first ≡ some (t, o))
        → let (major', second) = scan_remset scanner major none (some minor') t in
          (second ≡ some (u, some m)) → enumerate_pair scanner minor major s ≡ some (m, major', u)
  unfolding enumerate_pair
  pair-run minor major s t u o m a b = rw (a, b, enumerate_pair) refl

  -- Enumerating one generation with valid sets ends and leaves valid sets. The scanner is called
  -- once, in order, on the minor elements that are not major ones and then on the major ones, and
  -- afterwards exactly the words that it accepted are in one of the two sets.
  pub enumerate_pair-visits :
      (minor major : Remset) (s : S)
      → IsValid minor
      → IsValid major
      → (r : Remset × Remset × S) × (enumerate_pair scanner minor major s ≡ some r)
        × IsValid r.0
        × IsValid r.1
        × (r.2 ≡ (sift scanner (visits minor major) s).1)
        × ((v : ℕ)
            → (has v (rs_elements r.0) || has v (rs_elements r.1))
              ≡ has v (sift scanner (visits minor major) s).0)
  enumerate_pair-visits minor major s v w =
      let (valid, words, state) = scan_remset-sift minor (some major) none s v in
      let (st, members) = filtered scanner major (rs_elements minor) s 0 w (no_null minor) in
      let minor' = (scan_remset scanner minor (some major) none s).0 in
      let t = (sift scanner (outside (rs_elements minor) (rs_elements major)) s).1 in
      let (valid', words', state') = scan_remset-sift major none (some minor') t w in
      let (m, st', kept, valid'', gone) =
        mirrored scanner (rs_elements major) minor' t 0 valid (no_null major)
          (elements-IsDistinct major w) in
      let major' = (scan_remset scanner major none (some minor') t).0 in
      let both =
        sift-append scanner (outside (rs_elements minor) (rs_elements major)) (rs_elements major)
          s in
      (
        (m, major', (sift scanner (rs_elements major) t).1),
        pair-run minor major s t _ none m (state ∙ ap (λ p. p.0) st) (state' ∙ ap (λ p. p.0) st'),
        valid'',
        valid',
        ap (λ p. p.1) (sym both),
        λ x. rw both (
            ground (
              arith,
              members x,
              gone x,
              ap (has x) words,
              ap (has x) words',
              ap (has x) kept,
              has-append x (sift scanner (outside (rs_elements minor) (rs_elements major)) s).0
                  (sift scanner (rs_elements major) t).0,
              has-outside x (rs_elements minor) (rs_elements major),
              has-sift scanner x (outside (rs_elements minor) (rs_elements major)) s,
              has-sift scanner x (rs_elements major) t,
            )),
      )
