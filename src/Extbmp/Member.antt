-- ===== src/Extbmp/Member.antt =====
-- Adding, deleting and testing addresses against the set that the bitmap stands for.
use larceny.Base.{
  ℕ, ◌+◌, ◌*◌, ◌%◌, ◌≡◌, ◌≢◌, refl, sym, ap, ◌∙◌, inl, inr, true, false, not, ◌&&◌, ◌||◌, some,
  arith, Option-cases, Bool-cases, ◌==◌, ltb, leb, ==_iff,
}
use larceny.Bits.{set_bit, clear_bit}
use larceny.Extbmp.{Extbmp, leaf_wordaddr_lim, wrap}
use larceny.Extbmp.Find.{find_leaf_or_fail, find_or_alloc_leaf}
use larceny.Extbmp.Ops.{
  entry_bit, with_bit, extbmp_add_elem, extbmp_del_elem, extbmp_is_member, kill_member,
}
use larceny.Extbmp.Valid.{IsValid, Address, contains, find_tree}
use larceny.Extbmp.Search.{Searched, find_tree-Hit, find_fail_lem, find_alloc_lem}
use larceny.Extbmp.Change.{entry-set_bit, entry-clear_bit}
use larceny.Extbmp.Relist.{relist_lem}
use larceny.Extbmp.Effect.{
  changed-IsValid, with_bit-IsValid, contains-with_bit, Becomes, answer, contains-null,
  contains-found, contains-relinked,
}

module _ (e : Extbmp) (v : IsValid e) (w : ℕ) (a : Address e w) where
  absent : (x : ℕ) → contains e w ≡ false → contains e x ≡ (contains e x && not (x == w))
  absent x out = elim (Bool-cases (x == w)) [
    | inl at ↦ rw (at, ap (contains e) ((==_iff x w).0 at) ∙ out) refl
    | inr at ↦ ground (arith, at)
  ]

  -- what clearing the bit of `w` does to the set, after a search
  cleared :
      (e' : Extbmp) (leaf first : ℕ)
      → Searched e w (find_tree e w) e'
      → find_tree e' w ≡ some (leaf, first)
      → Becomes e (with_bit clear_bit e' leaf w first) (λ x. contains e x && not (x == w))
  cleared e' leaf first s found x b =
      let a' : Address e' w = (a.0, omega (arith, a.1, s.size)) in
      let b' : Address e' x = (b.0, omega (arith, b.1, s.size)) in
      let h = find_tree-Hit e' s.valid w a' leaf first found in
      contains-with_bit e' s.valid w leaf first a' found clear_bit (λ p q. p && not q)
        (λ p. ground arith)
        (λ y c. entry-clear_bit (e'.leaves.at leaf) y w first c (h.low, omega arith, a.0)) x b'
      ∙ ap (λ c. c && not (x == w)) (s.keeps x b)

  -- The membership test answers for the set, and the set stays as it is.
  pub extbmp_is_member_lem :
      (e' : Extbmp) × (extbmp_is_member e w ≡ some (contains e w, e'))
      × IsValid e'
      × (e'.leaf_words ≡ e.leaf_words)
      × Becomes e e' (contains e)
  unfolding extbmp_is_member find_leaf_or_fail
  extbmp_is_member_lem =
      let (e', run, s) = find_fail_lem e v w a in
      let same = sym (s.keeps w a) in
      elim (Option-cases (find_tree e w)) [
        | inl gone ↦ (
          e',
          rw
              (
                run ∙ ap (λ o. answer o e') gone,
                same ∙ contains-null e' w (s.there ∙ gone),
                extbmp_is_member,
                find_leaf_or_fail,
              )
              refl,
          s.valid,
          s.size,
          s.keeps,
        )
        | inr ((leaf, first), there) ↦ (
          e',
          rw
              (
                run ∙ ap (λ o. answer o e') there,
                same ∙ contains-found e' w leaf first (s.there ∙ there),
                extbmp_is_member,
                find_leaf_or_fail,
              )
              refl,
          s.valid,
          s.size,
          s.keeps,
        )
      ]

  -- Adding an address to a valid bitmap that can hold it, of a generation that is not 0, fails no
  -- assertion and tells whether the address was there. The bitmap is valid afterwards, has the size of
  -- before, and contains the address and what it contained before.
  pub extbmp_add_elem_lem :
      (gen_of : ℕ → ℕ)
      → gen_of w ≢ 0
      → (e' : Extbmp) × (extbmp_add_elem gen_of e w ≡ some (contains e w, e'))
        × IsValid e'
        × (e'.leaf_words ≡ e.leaf_words)
        × Becomes e e' (λ x. contains e x || (x == w))
  unfolding extbmp_add_elem find_or_alloc_leaf leaf_wordaddr_lim
  extbmp_add_elem_lem gen_of generation =
      let (e1, leaf, first, run, s) = find_alloc_lem e v w a in
      let a1 : Address e1 w = (a.0, omega (arith, a.1, s.size)) in
      let h = find_tree-Hit e1 s.valid w a1 leaf first s.there in
      let e2 = with_bit set_bit e1 leaf w first in
      let v2 = with_bit-IsValid e1 s.valid w leaf first a1 s.there set_bit in
      let r = relist_lem e2 v2.linked v2.blank leaf h.not_null h.allocated (gen_of w) in
      let aligned : (w % 8 == 0) ≡ true = ground (arith, a.0) in
      let covered : (leb first w && ltb w (wrap (first + 4 * (64 * e1.leaf_words)))) ≡ true =
        ground (arith, h.low, h.high, h.bounded) in
      let has_generation : (gen_of w == 0) ≡ false = ground arith in
      (
        record e2 { leaves = r.after; gno_to_leaf = r.heads },
        rw
            (
              aligned,
              run,
              covered,
              has_generation,
              r.runs,
              sym (s.keeps w a) ∙ contains-found e1 w leaf first s.there,
              extbmp_add_elem,
              find_or_alloc_leaf,
              leaf_wordaddr_lim,
            )
            refl,
        changed-IsValid e2 v2 r.after r.heads r.relinks.brk r.relinks.starts r.relinks.blank
            r.relinks.linked,
        s.size,
        λ x b.
            let b1 : Address e1 x = (b.0, omega (arith, b.1, s.size)) in
            contains-relinked e2 r.after r.heads x r.relinks.bitmaps
            ∙ contains-with_bit e1 s.valid w leaf first a1 s.there set_bit (λ p q. p || q)
                (λ p. ground arith)
                (λ y c. entry-set_bit (e1.leaves.at leaf) y w first c (h.low, omega arith, a.0)) x
                b1
            ∙ ap (λ c. c || (x == w)) (s.keeps x b),
      )

  pub extbmp_del_elem_lem :
      (e' : Extbmp) × (extbmp_del_elem e w ≡ some e')
      × IsValid e'
      × (e'.leaf_words ≡ e.leaf_words)
      × Becomes e e' (λ x. contains e x && not (x == w))
  unfolding extbmp_del_elem find_leaf_or_fail
  extbmp_del_elem_lem =
      let (e', run, s) = find_fail_lem e v w a in
      let a' : Address e' w = (a.0, omega (arith, a.1, s.size)) in
      elim (Option-cases (find_tree e w)) [
        | inl gone ↦ (
          e',
          rw (run ∙ ap (λ o. answer o e') gone, extbmp_del_elem, find_leaf_or_fail) refl,
          s.valid,
          s.size,
          λ x b. s.keeps x b ∙ absent x (sym (s.keeps w a) ∙ contains-null e' w (s.there ∙ gone)),
        )
        | inr ((leaf, first), there) ↦
            let found = s.there ∙ there in
            let before = sym (s.keeps w a) ∙ contains-found e' w leaf first found in
            let run' = run ∙ ap (λ o. answer o e') there in
            elim (Bool-cases (entry_bit (e'.leaves.at leaf) w first)) [
              | inl set ↦ (
                with_bit clear_bit e' leaf w first,
                rw (run', set, extbmp_del_elem, find_leaf_or_fail) refl,
                with_bit-IsValid e' s.valid w leaf first a' found clear_bit,
                s.size,
                cleared e' leaf first s found,
              )
              | inr unset ↦ (
                e',
                rw (run', unset, extbmp_del_elem, find_leaf_or_fail) refl,
                s.valid,
                s.size,
                λ x b. s.keeps x b ∙ absent x (before ∙ unset),
              )
            ]
      ]

  -- Killing a member does the same.
  pub kill_member_lem :
      (e' : Extbmp) × (kill_member e w ≡ some e')
      × IsValid e'
      × (e'.leaf_words ≡ e.leaf_words)
      × Becomes e e' (λ x. contains e x && not (x == w))
  unfolding kill_member find_leaf_or_fail
  kill_member_lem =
      let (e', run, s) = find_fail_lem e v w a in
      let a' : Address e' w = (a.0, omega (arith, a.1, s.size)) in
      elim (Option-cases (find_tree e w)) [
        | inl gone ↦ (
          e',
          rw (run ∙ ap (λ o. answer o e') gone, kill_member, find_leaf_or_fail) refl,
          s.valid,
          s.size,
          λ x b. s.keeps x b ∙ absent x (sym (s.keeps w a) ∙ contains-null e' w (s.there ∙ gone)),
        )
        | inr ((leaf, first), there) ↦
            let found = s.there ∙ there in
            (
              with_bit clear_bit e' leaf w first,
              rw (run ∙ ap (λ o. answer o e') there, kill_member, find_leaf_or_fail) refl,
              with_bit-IsValid e' s.valid w leaf first a' found clear_bit,
              s.size,
              cleared e' leaf first s found,
            )
      ]
