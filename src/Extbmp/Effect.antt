-- ===== src/Extbmp/Effect.antt =====
-- What changing a bit of one leaf, and changing links, does to the invariant and to the set.
use mathlib.Core.Path.{subst}
use larceny.Base.{
  ℕ, zero, suc, ◌%◌, ◌^◌, ◌≤◌, ◌<◌, ◌≡◌, ◌≢◌, refl, sym, ap, ◌∙◌, inl, inr, Bool, false, Option,
  none, some, arith, Option-cases, Bool-cases, ◌==◌, update_self, update_ne, ==_iff,
}
use larceny.Bits.{test_bit}
use larceny.Extbmp.{Tnode, Leaves, Extbmp}
use larceny.Extbmp.Ops.{word_idx, bit_in_word, entry_bit, change_bit, with_bit}
use larceny.Extbmp.Shape.{Shaped}
use larceny.Extbmp.Linked.{Linked}
use larceny.Extbmp.Valid.{gnos, prevs, nexts, IsValid, Address, contains, find_tree}
use larceny.Extbmp.Search.{find_tree-Hit}
use larceny.Extbmp.Relist.{Linked-ext}
use larceny.Extbmp.Grow.{in_tree, bit_at, IsUnlisted}

Shaped-same :
    (leaf_words entries depth : ℕ) (t : Tnode depth) (start : ℕ) (lv lv' : Leaves)
    → lv'.brk ≡ lv.brk
    → ((a : ℕ) → (lv'.at a).start ≡ (lv.at a).start)
    → Shaped leaf_words entries depth t start lv
    → Shaped leaf_words entries depth t start lv'
Shaped-same lw en zero t start lv lv' brk starts sh =
    (sh.0, omega (arith, brk, sh.1), starts t ∙ sh.2, sh.3)
Shaped-same lw en (suc depth) t start lv lv' brk starts sh = (
  sh.0,
  sh.1,
  λ i bound child there.
      let (small, shaped) = sh.2 i bound child there in
      (small, Shaped-same lw en depth child _ lv lv' brk starts shaped),
)

abbrev hit : ℕ → ℕ → Option (ℕ × ℕ)
hit leaf first = some (leaf, first)

module _ (e : Extbmp) (v : IsValid e) where
  -- The invariant after a change to links and bitmaps.
  pub changed-IsValid :
      (lv' : Leaves) (heads : ℕ → ℕ)
      → lv'.brk ≡ e.leaves.brk
      → ((a : ℕ) → (lv'.at a).start ≡ (e.leaves.at a).start)
      → ((a : ℕ) → e.leaves.brk ≤ a → IsUnlisted (lv'.at a))
      → Linked (gnos lv') (prevs lv') (nexts lv') heads
      → IsValid (record e { leaves = lv'; gno_to_leaf = heads })
  changed-IsValid lv' heads brk starts blank linked = record {
    some_words = v.some_words;
    some_entries = v.some_entries;
    covers = v.covers;
    brk_pos = omega (arith, brk, v.brk_pos);
    shaped = Shaped-same _ _ e.depth e.tree 0 e.leaves lv' brk starts v.shaped;
    cache = v.cache;
    blank = λ leaf above. blank leaf (omega (arith, brk));
    linked = linked;
  }

  -- the leaf of an address that is found, and the bit of the address changed there
  module _ (w leaf first : ℕ) (a : Address e w) (there : find_tree e w ≡ some (leaf, first))
      (change : ℕ → ℕ → ℕ) where
    pub with_bit-IsValid : IsValid (with_bit change e leaf w first)
    with_bit-IsValid =
        changed-IsValid (with_bit change e leaf w first).leaves e.gno_to_leaf refl
          (λ x. ground arith)
          (λ x above.
            let u = v.blank x above in
            let h = find_tree-Hit e v w a leaf first there in
            subst IsUnlisted (sym (update_ne e.leaves.at leaf x _ (omega (arith, h.allocated)))) u)
          (Linked-ext _ _ _ _ _ _ _ _ (λ x. ground arith) (λ x. ground arith) (λ x. ground arith)
            (λ x. refl) v.linked)

    differs : (x : ℕ) → find_tree e x ≢ some (leaf, first) → (x == w) ≡ false
    differs x n = elim (Bool-cases (x == w)) [
      | inl e' ↦ absurd (n (ap (find_tree e) ((==_iff x w).0 e') ∙ there))
      | inr e' ↦ e'
    ]

    -- What the change does to one leaf's bits, it does to the set.
    pub contains-with_bit :
        (op : Bool → Bool → Bool)
        → ((b : Bool) → op b false ≡ b)
        → ((x : ℕ)
            → (first ≤ x) × (x < 2 ^ 32) × (x % 8 ≡ 0)
            → entry_bit (change_bit change w first (e.leaves.at leaf)) x first
              ≡ op (entry_bit (e.leaves.at leaf) x first) (x == w))
        → (x : ℕ) → Address e x
        → contains (with_bit change e leaf w first) x ≡ op (contains e x) (x == w)
    unfolding contains in_tree
    contains-with_bit op keep effect x b =
        let lv' = (with_bit change e leaf w first).leaves in
        let apart =
          λ (ne : (x == w) ≡ false). sym (ap (op (contains e x)) ne ∙ keep (contains e x)) in
        let h = find_tree-Hit e v w a leaf first there in
        elim (Option-cases (find_tree e x)) [
          | inl gone ↦
              ap (bit_at x lv') gone
              ∙ sym (ap (bit_at x e.leaves) gone)
              ∙ apart (differs x (λ t. ground (arith, t)))
          | inr ((leaf', first'), here) ↦
              let k = find_tree-Hit e v x b leaf' first' here in
              elim (Bool-cases (leaf' == leaf)) [
                | inl same ↦
                    let at = (==_iff leaf' leaf).0 same in
                    let firsts = sym k.knows ∙ ap (λ l. (e.leaves.at l).start) at ∙ h.knows in
                    let found = here ∙ pair leaf' first' at firsts in
                    ap (bit_at x lv') found
                    ∙ ap (λ l. entry_bit l x first) (update_self e.leaves.at leaf _)
                    ∙ effect x (omega (arith, k.low, firsts), omega arith, b.0)
                    ∙ sym (ap (λ c. op c (x == w)) (ap (bit_at x e.leaves) found))
                | inr other ↦
                    ap (bit_at x lv') here
                    ∙ ap (λ l. entry_bit l x first')
                        (update_ne e.leaves.at leaf leaf' _ (ground arith))
                    ∙ sym (ap (bit_at x e.leaves) here)
                    ∙ apart (differs x (λ t. ground (arith, t)))
              ]
        ]
      where
        pair : (l f : ℕ) → l ≡ leaf → f ≡ first → hit l f ≡ hit leaf first
        pair l f p q = rw (p, q) refl

-- what an operation does to the set
abbrev pub Becomes : Extbmp → Extbmp → (ℕ → Bool) → Type 0
Becomes e e' set = (x : ℕ) → Address e x → contains e' x ≡ set x

abbrev pub answer : Option (ℕ × ℕ) → Extbmp → Option (Option (ℕ × ℕ) × Extbmp)
answer found e = some (found, e)

pub contains-null : (e : Extbmp) (w : ℕ) → find_tree e w ≡ none → contains e w ≡ false
unfolding contains in_tree
contains-null e w gone = ap (bit_at w e.leaves) gone

pub contains-found :
    (e : Extbmp) (w leaf first : ℕ)
    → find_tree e w ≡ some (leaf, first)
    → contains e w ≡ entry_bit (e.leaves.at leaf) w first
unfolding contains in_tree
contains-found e w leaf first there = ap (bit_at w e.leaves) there

-- New links leave the set as it is.
pub contains-relinked :
    (e : Extbmp) (lv' : Leaves) (heads : ℕ → ℕ) (x : ℕ)
    → ((a : ℕ) → (lv'.at a).bitmap ≡ (e.leaves.at a).bitmap)
    → contains (record e { leaves = lv'; gno_to_leaf = heads }) x ≡ contains e x
unfolding contains in_tree
contains-relinked e lv' heads x bitmaps = elim (Option-cases (find_tree e x)) [
  | inl gone ↦ ap (bit_at x lv') gone ∙ sym (ap (bit_at x e.leaves) gone)
  | inr ((leaf, first), there) ↦
      ap (bit_at x lv') there
      ∙ ap (λ f. test_bit (f (word_idx x first)) (bit_in_word x first)) (bitmaps leaf)
      ∙ sym (ap (bit_at x e.leaves) there)
]
