-- ===== src/UremsetArray/Copy.antt =====
-- Copying the minor sets into the major ones.
use larceny.Base.{
  ltb, ℕ, zero, suc, ◌+◌, ◌-◌, ◌≡◌, refl, ap, ◌∙◌, sym, ◌<◌, ◌≤◌, List, [], ◌∷◌, some, Bool, true,
  false, ◌||◌, ◌&&◌, arith, has, has-insert, update, update_all, update_self, update_ne, ◌==◌,
  Bool-cases, inl, inr,
}
use mathlib.Core.Path.{subst}
use larceny.Pool.Scan.{sift}
use larceny.Remset.{Remset, rs_enumerate, rs_add_elem}
use larceny.Remset.Valid.{IsValid, rs_elements}
use larceny.Remset.Ops.{rs_add_elem-IsValid, rs_enumerate-IsValid}
use larceny.UremsetArray.{Uremset, copy_over_to, copy_from, copy_minor_to_major}
use larceny.UremsetArray.Valid.{AllValid, reached}
use larceny.UremsetArray.Enumerate.{no_null}

step_copy :
    (major m : Remset) (o : Bool) (y n : ℕ)
    → rs_add_elem major y ≡ some (m, o)
    → copy_over_to y (some major, n) ≡ (true, (some m, n))
unfolding copy_over_to
step_copy major m o y n e = rw e refl

-- The scan of a minor set keeps its words and adds them to the major set.
copied :
    (xs : List ℕ) (major : Remset) (n : ℕ)
    → IsValid major
    → has 0 xs ≡ false
    → (m : Remset) × (sift copy_over_to xs (some major, n) ≡ (xs, (some m, n)))
      × IsValid m
      × ((v : ℕ) → has v (rs_elements m) ≡ (has v (rs_elements major) || has v xs))
unfolding sift
copied [] major n v z = (major, refl, v, λ x. ground arith)
copied (y ∷ ys) major n v z =
    let (r, e, valid, grows, same) = rs_add_elem-IsValid major y v (ground arith) in
    let (m, run, valid', members) = copied ys r.0 n valid (ground arith) in
    (
      m,
      rw (step_copy major r.0 r.1 y n e, run) refl,
      valid',
      λ x. ground (arith, members x, ap (has x) grows, has-insert x y (rs_elements major)),
    )

copy_one :
    (minor major : Remset)
    → IsValid minor
    → IsValid major
    → (m : Remset) × ((rs_enumerate copy_over_to minor (some major)).1 ≡ some m)
      × IsValid (rs_enumerate copy_over_to minor (some major)).0
      × IsValid m
      × (rs_elements (rs_enumerate copy_over_to minor (some major)).0 ≡ rs_elements minor)
      × ((v : ℕ) → has v (rs_elements m) ≡ (has v (rs_elements major) || has v (rs_elements minor)))
copy_one minor major v w =
    let (valid, words, state) = rs_enumerate-IsValid copy_over_to minor (some major) v in
    let (m, run, valid', members) = copied (rs_elements minor) major 0 w (no_null minor) in
    (m, state ∙ ap (λ p. p.1.0) run, valid, valid', words ∙ ap (λ p. p.0) run, members)

-- What copying does to generation `g`, one of those copied.
abbrev Copies : Uremset → Uremset → ℕ → Type 0
Copies urs urs' g =
    (rs_elements (urs'.remset g) ≡ rs_elements (urs.remset g))
    × ((v : ℕ)
        → has v (rs_elements (urs'.major_remset g))
          ≡ (has v (rs_elements (urs.major_remset g)) || has v (rs_elements (urs.remset g))))

abbrev Same : Uremset → Uremset → ℕ → Type 0
Same urs urs' g = (urs'.remset g ≡ urs.remset g) × (urs'.major_remset g ≡ urs.major_remset g)

Copies-frame :
    (urs next r : Uremset) (g : ℕ)
    → next.remset g ≡ urs.remset g
    → next.major_remset g ≡ urs.major_remset g
    → Copies next r g
    → Copies urs r g
Copies-frame urs next r g a b (c, d) = (
  c ∙ ap rs_elements a,
  λ x. ground (arith, d x, ap (λ y. has x (rs_elements y)) a, ap (λ y. has x (rs_elements y)) b),
)

copy_from-Copies :
    (n i : ℕ) (urs : Uremset)
    → AllValid urs
    → (r : Uremset) × (copy_from n i urs ≡ some r)
      × AllValid r
      × ((g : ℕ) → i ≤ g → g < i + n → Copies urs r g)
      × ((g : ℕ) → g < i → Same urs r g)
      × ((g : ℕ) → i + n ≤ g → Same urs r g)
unfolding copy_from
copy_from-Copies zero i urs v =
    (urs, refl, v, λ g a b. absurd (omega arith), λ g a. (refl, refl), λ g a. (refl, refl))
copy_from-Copies (suc n) i urs v =
    let (m, run, valid, valid', kept, members) =
      copy_one (urs.remset i) (urs.major_remset i) (v.minor i) (v.major i) in
    let rs = (rs_enumerate copy_over_to (urs.remset i) (some (urs.major_remset i))).0 in
    let next : Uremset = record urs {
      remset = update urs.remset i rs;
      major_remset = update urs.major_remset i m;
    } in
    let next_valid : AllValid next = record {
      minor = update_all IsValid urs.remset i rs valid v.minor;
      major = update_all IsValid urs.major_remset i m valid' v.major;
    } in
    let (r, e, all, copies, below, above) = copy_from-Copies n (i + 1) next next_valid in
    (
      r,
      rw (run, copy_from) e,
      all,
      λ g a b. elim (Bool-cases (g == i)) [
        | inl at_i ↦
            let same : g ≡ i = ground arith in
            let (p, q) = below i (omega arith) in
            subst (Copies urs r) (sym same) (
              ap rs_elements (p ∙ update_self urs.remset i rs) ∙ kept,
              λ x.
                  ap (λ y. has x (rs_elements y)) (q ∙ update_self urs.major_remset i m)
                  ∙ members x,
            )
        | inr other ↦
            Copies-frame urs next r g (update_ne urs.remset i g rs (ground arith))
              (update_ne urs.major_remset i g m (ground arith))
              (copies g (ground arith) (omega arith))
      ],
      λ g a.
          let (p, q) = below g (omega arith) in
          (
            p ∙ update_ne urs.remset i g rs (λ e. omega arith),
            q ∙ update_ne urs.major_remset i g m (λ e. omega arith),
          ),
      λ g a.
          let (p, q) = above g (omega arith) in
          (
            p ∙ update_ne urs.remset i g rs (λ e. omega arith),
            q ∙ update_ne urs.major_remset i g m (λ e. omega arith),
          ),
    )

-- Copying over valid sets ends and leaves valid sets. The minor sets keep their words, and the
-- major sets of the generations 1 to remset_count - 1 gain the words of their minor sets.
pub copy_minor_to_major-elements :
    (urs : Uremset)
    → AllValid urs
    → (r : Uremset) × (copy_minor_to_major urs ≡ some r)
      × AllValid r
      × ((g : ℕ) → rs_elements (r.remset g) ≡ rs_elements (urs.remset g))
      × ((g w : ℕ)
          → has w (rs_elements (r.major_remset g)) ≡ (
              has w (rs_elements (urs.major_remset g))
              || (reached urs g && has w (rs_elements (urs.remset g)))))
unfolding copy_minor_to_major
copy_minor_to_major-elements urs v =
    let (r, e, all, copies, below, above) = copy_from-Copies (urs.remset_count - 1) 1 urs v in
    let outside_range : (g : ℕ) → reached urs g ≡ false → Same urs r g = λ g n.
      elim (Bool-cases (ltb 0 g)) [
        | inl p ↦ above g (ground arith)
        | inr z ↦ below g (ground arith)
      ] in
    (
      r,
      e,
      all,
      λ g. elim (Bool-cases (reached urs g)) [
        | inl b ↦ (copies g (ground arith) (ground arith)).0
        | inr b ↦ ap rs_elements (outside_range g b).0
      ],
      λ g w. elim (Bool-cases (reached urs g)) [
        | inl b ↦ rw b ((copies g (ground arith) (ground arith)).1 w)
        | inr b ↦ rw b (ap (λ y. has w (rs_elements y)) (outside_range g b).1 ∙ ground arith)
      ],
    )
