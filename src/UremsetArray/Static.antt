-- ===== src/UremsetArray/Static.antt =====
-- The enumeration of the static area's sets, where their generation stays the same.
use mathlib.Core.Path.{fun_ext, subst}
use larceny.Base.{
  ℕ, ◌≡◌, refl, ap, sym, none, some, Bool, true, false, arith, ◌≢◌, update, ◌==◌, Bool-cases,
  Option-cases, inl, inr,
}
use larceny.Remset.{Remset}
use larceny.UremsetArray.{Uremset, scan_remset, enumerate_pair, enumerate_static, enumerate_both}

module _ {S : Type 0} (scanner : ℕ → S → Bool × S) where
  update_twice : (f : ℕ → Remset) (g : ℕ) (a b : Remset) → update (update f g a) g b ≡ update f g b
  update_twice f g a b =
      fun_ext λ j. elim (Bool-cases (j == g)) [ inl e ↦ rw e refl | inr e ↦ rw e refl ]

  constant_both :
      (urs : Uremset) (g : ℕ) (s : S)
      → g ≢ 0
      → enumerate_static scanner (λ _. g) urs s ≡ enumerate_both scanner urs g s
  unfolding enumerate_static enumerate_both enumerate_pair
  constant_both urs g s old =
      let set : (g == 0) ≡ false = ground arith in
      let self : (g == g) ≡ true = ground arith in
      let minor = (scan_remset scanner (urs.remset g) (some (urs.major_remset g)) none s).0 in
      elim (Option-cases
        (scan_remset scanner (urs.remset g) (some (urs.major_remset g)) none s).1) [
          | inl e ↦ rw (e, enumerate_static, enumerate_both, enumerate_pair, set) refl
          | inr ((t, o), e) ↦
              elim (Option-cases (scan_remset scanner (urs.major_remset g) none (some minor) t).1) [
                | inl e' ↦
                    rw (e, self, e', enumerate_static, enumerate_both, enumerate_pair, set) refl
                | inr ((u, none), e') ↦
                    rw (e, self, e', enumerate_static, enumerate_both, enumerate_pair, set) refl
                | inr ((u, some m), e') ↦
                    rw (e, self, e', enumerate_static, enumerate_both, enumerate_pair, set, self)
                      (ap
                        (λ f. some (
                          record urs {
                            remset = f;
                            major_remset =
                                update urs.major_remset g
                                  (scan_remset scanner (urs.major_remset g) none (some minor) t).0;
                          },
                          u,
                        ))
                        (update_twice urs.remset g minor m))
              ]
        ]

  -- Where the scanner leaves the number of generations alone, the static sets are a pair like any other.
  pub static_both :
      (last_gno : S → ℕ) (urs : Uremset) (g : ℕ) (s : S)
      → ((t : S) → last_gno t ≡ g)
      → g ≢ 0
      → enumerate_static scanner last_gno urs s ≡ enumerate_both scanner urs g s
  static_both last_gno urs g s fixed old =
      subst (λ f. enumerate_static scanner f urs s ≡ enumerate_both scanner urs g s)
        (sym (fun_ext fixed)) (constant_both urs g s old)
