-- ===== src/UremsetArray/Visit.antt =====
-- The two scans of one generation, over the lists of elements.
use larceny.Base.{
  ℕ, ◌≡◌, refl, ap, ◌∙◌, List, [], ◌∷◌, ◌++◌, Option, none, some, Bool, true, false, not, ◌&&◌,
  ◌||◌, arith, has, IsDistinct, if◌then◌else◌, Bool-cases, inl, inr,
}
use larceny.Pool.Contents.{has-without}
use larceny.Pool.Scan.{sift}
use larceny.Remset.{Remset, rs_isremembered, rs_del_elem}
use larceny.Remset.Valid.{IsValid, rs_elements, rs_isremembered-elements}
use larceny.Remset.Ops.{rs_del_elem-IsValid}
use larceny.UremsetArray.{apply_scanner_to_rs}

-- the words of `xs` that are not in `zs`
unfoldable pub outside : List ℕ → List ℕ → List ℕ
outside [] zs = []
outside (x ∷ xs) zs = let rest = outside xs zs in if has x zs then rest else x ∷ rest

pub has-outside : (v : ℕ) (xs zs : List ℕ) → has v (outside xs zs) ≡ (has v xs && not (has v zs))
unfolding outside
has-outside v [] zs = refl
has-outside v (x ∷ xs) zs = ground (arith, has-outside v xs zs)

module _ {S : Type 0} (scanner : ℕ → S → Bool × S) where
  pub has-sift :
      (v : ℕ) (xs : List ℕ) (s : S) → has v (sift scanner xs s).0 ≡ true → has v xs ≡ true
  unfolding sift
  has-sift v [] s h = h
  has-sift v (x ∷ xs) s h = ground (arith, has-sift v xs (scanner x s).1)

  pub sift-append :
      (xs ys : List ℕ) (s : S)
      → let (kept, t) = sift scanner xs s in
        let (kept', u) = sift scanner ys t in sift scanner (xs ++ ys) s ≡ (kept ++ kept', u)
  unfolding sift
  sift-append [] ys s = refl
  sift-append (x ∷ xs) ys s = ground (arith, sift-append xs ys (scanner x s).1)

  -- one call of the wrapped scanner, in each of its cases
  step_skip :
      (f : Remset) (m : Option Remset) (y n : ℕ) (s : S)
      → rs_isremembered f y ≡ some true
      → apply_scanner_to_rs scanner (some f) y (some (s, m), n) ≡ (true, (some (s, m), n))
  unfolding apply_scanner_to_rs
  step_skip f m y n s e = rw (e, apply_scanner_to_rs) refl

  step_call :
      (f : Remset) (y n : ℕ) (s : S)
      → rs_isremembered f y ≡ some false
      → apply_scanner_to_rs scanner (some f) y (some (s, none), n)
        ≡ ((scanner y s).0, (some ((scanner y s).1, none), n))
  unfolding apply_scanner_to_rs
  step_call f y n s e = rw (e, apply_scanner_to_rs) refl

  step_keep :
      (m : Remset) (y n : ℕ) (s : S)
      → (scanner y s).0 ≡ true
      → apply_scanner_to_rs scanner none y (some (s, some m), n)
        ≡ (true, (some ((scanner y s).1, some m), n))
  unfolding apply_scanner_to_rs
  step_keep m y n s e = rw e refl

  step_drop :
      (m m' : Remset) (y n : ℕ) (s : S)
      → (scanner y s).0 ≡ false
      → rs_del_elem m y ≡ some m'
      → apply_scanner_to_rs scanner none y (some (s, some m), n)
        ≡ (false, (some ((scanner y s).1, some m'), n))
  unfolding apply_scanner_to_rs
  step_drop m m' y n s e d = rw (e, d) refl

  -- The first scan passes over what is in the major set.
  pub filtered :
      (major : Remset) (xs : List ℕ) (s : S) (n : ℕ)
      → IsValid major
      → has 0 xs ≡ false
      → let (kept, t) = sift scanner (outside xs (rs_elements major)) s in
        let r = sift (apply_scanner_to_rs scanner (some major)) xs (some (s, none), n) in
        (r.1 ≡ (some (t, none), n))
        × ((v : ℕ) → has v r.0 ≡ ((has v xs && has v (rs_elements major)) || has v kept))
  unfolding sift outside
  filtered major [] s n v z = (refl, λ x. refl)
  filtered major (y ∷ ys) s n v z =
      let known = rs_isremembered-elements major y v (ground arith) in
      elim (Bool-cases (has y (rs_elements major))) [
        | inl there ↦
            let step = step_skip major none y n s (known ∙ ap some there) in
            let (state, members) = filtered major ys s n v (ground arith) in
            rw (step, there) (state, λ x. ground (arith, members x))
        | inr new ↦
            let step = step_call major y n s (known ∙ ap some new) in
            let (state, members) = filtered major ys (scanner y s).1 n v (ground arith) in
            rw (step, new) (state, λ x. ground (arith, members x))
      ]

  -- The second scan removes from the mirror what it removes from its own set.
  pub mirrored :
      (xs : List ℕ) (mirror : Remset) (s : S) (n : ℕ)
      → IsValid mirror
      → has 0 xs ≡ false
      → IsDistinct xs
      → let (kept, t) = sift scanner xs s in
        let r = sift (apply_scanner_to_rs scanner none) xs (some (s, some mirror), n) in
        (m : Remset) × (r.1 ≡ (some (t, some m), n))
        × (r.0 ≡ kept)
        × IsValid m
        × ((v : ℕ)
            → has v (rs_elements m)
              ≡ (has v (rs_elements mirror) && not (has v xs && not (has v kept))))
  unfolding sift
  mirrored [] mirror s n v z d = (mirror, refl, refl, v, λ x. ground arith)
  mirrored (y ∷ ys) mirror s n v z d = elim (Bool-cases (scanner y s).0) [
    | inl keep ↦
        let (m, state, kept, valid, members) =
          mirrored ys mirror (scanner y s).1 n v (ground arith) d.1 in
        (
          m,
          rw (step_keep mirror y n s keep) state,
          rw (step_keep mirror y n s keep, keep) (ap (λ l. y ∷ l) kept),
          valid,
          λ x. rw keep (ground (arith, members x)),
        )
    | inr drop ↦
        let (m', del, valid', gone) = rs_del_elem-IsValid mirror y v (ground arith) in
        let (m, state, kept, valid, members) =
          mirrored ys m' (scanner y s).1 n valid' (ground arith) d.1 in
        (
          m,
          rw (step_drop mirror m' y n s drop del) state,
          rw (step_drop mirror m' y n s drop del, drop) kept,
          valid,
          λ x. rw drop (
              ground (
                arith,
                members x,
                ap (has x) gone,
                has-without x y (rs_elements mirror),
                has-sift x ys (scanner y s).1,
              )),
        )
  ]
