-- ===== src/Extbmp/Listed.antt =====
-- The list of a bitmap's addresses has exactly the members of the set.
use native.Mathlib.Nat.{mul-le-mul_right}
use larceny.Base.{
  ℕ, zero, suc, ◌+◌, ◌-◌, ◌*◌, ◌/◌, ◌%◌, ◌^◌, ◌≤◌, ◌<◌, ◌≡◌, refl, sym, ap, ◌∙◌, inl, inr, Bool,
  true, false, ◌||◌, Option, none, some, List, arith, Option-cases, Bool-cases, ◌==◌, ltb, has,
  has-append, ==_iff,
}
use larceny.Bits.{bit, test_bit_lem, bit_and_31}
use larceny.Extbmp.{Leaf, Tnode, Leaves, Extbmp}
use larceny.Extbmp.Find.{child_index}
use larceny.Extbmp.Member.{extbmp_is_member_lem}
use larceny.Extbmp.Ops.{extbmp_is_member, bit_idx, word_idx, bit_in_word, entry_bit}
use larceny.Extbmp.Index.{minus_lem}
use larceny.Extbmp.Shape.{look, words, Shaped, child_lem}
use larceny.Extbmp.Tree.{slot_elements, children_elements, tree_elements, place_aligned}
use larceny.Extbmp.Valid.{IsValid, Address, contains}
use larceny.Extbmp.All.{members}
use larceny.Extbmp.Effect.{Becomes}
use larceny.Extbmp.Grow.{in_tree, in_tree-null, in_tree-child}
use larceny.Extbmp.Elements.{bit_elements, word_elements, has-word_elements, has-bit_elements}
use larceny.Extbmp.Range.{has-children, has-tree_elements}

-- one word: the addresses of its bits
bits_listed :
    (n base j curr x : ℕ)
    → base % 8 ≡ 0
    → x % 8 ≡ 0
    → base + 8 * j ≤ x
    → x < base + 8 * (j + n)
    → has x (bit_elements n base j curr) ≡ bit curr ((x - base) / 8)
unfolding bit_elements
bits_listed zero base j curr x b a low high = absurd (omega arith)
bits_listed (suc n) base j curr x b a low high = elim (Bool-cases (x == base + 8 * j)) [
  | inl here ↦
      let at : (x - base) / 8 ≡ j = ground arith in
      elim (Bool-cases (bit curr j)) [
        | inl set ↦ rw (at, set, here, bit_elements) refl
        | inr unset ↦ elim (Bool-cases (has x (bit_elements n base (j + 1) curr))) [
          | inl later ↦
              let (l, h) = has-bit_elements n base (j + 1) curr x later in
              absurd (ground (arith, l))
          | inr out ↦ rw (at, unset, out, bit_elements) refl
        ]
      ]
  | inr other ↦
      let rest = bits_listed n base (j + 1) curr x b a (ground arith) (omega arith) in
      elim (Bool-cases (bit curr j)) [
        | inl set ↦ rw (set, other, bit_elements) rest
        | inr unset ↦ rw (unset, bit_elements) rest
      ]
]

-- What is out of a list's range is not in the list.
not_true : (b : Bool) → (b ≡ true → ⊥) → b ≡ false
not_true b n = elim (Bool-cases b) [ inl e ↦ absurd (n e) | inr e ↦ e ]

words_listed :
    (n first word_idx : ℕ) (bitmap : ℕ → ℕ) (x : ℕ)
    → first % 8 ≡ 0
    → x % 8 ≡ 0
    → first + 256 * word_idx ≤ x
    → x < first + 256 * (word_idx + n)
    → has x (word_elements n first word_idx bitmap)
      ≡ bit (bitmap ((x - first) / 256)) ((x - first) / 8 % 32)
unfolding word_elements
words_listed zero first word_idx bitmap x f a low high = absurd (omega arith)
words_listed (suc n) first word_idx bitmap x f a low high =
    let base = first + 256 * word_idx in
    let bits = bit_elements 32 base 0 (bitmap word_idx) in
    let rest = word_elements n first (word_idx + 1) bitmap in
    has-append x bits rest ∙ elim (Bool-cases (ltb x (first + 256 * (word_idx + 1)))) [
      | inl here ↦
          let at : (x - first) / 256 ≡ word_idx = ground arith in
          let j : (x - first) / 8 % 32 ≡ (x - base) / 8 = ground arith in
          let one =
            bits_listed 32 base 0 (bitmap word_idx) x (omega arith) a (omega arith)
              (ground arith) in
          let gone =
            not_true (has x rest)
              (λ m. ground (arith, has-word_elements n first (word_idx + 1) bitmap x m)) in
          rw (at, j, one, gone) (or_false (bit (bitmap word_idx) ((x - base) / 8)))
      | inr later ↦
          let one = words_listed n first (word_idx + 1) bitmap x f a (ground arith) (omega arith) in
          let gone =
            not_true (has x bits)
              (λ m. ground (arith, has-bit_elements 32 base 0 (bitmap word_idx) x m)) in
          rw gone one
    ]
  where
    or_false : (b : Bool) → (b || false) ≡ b
    or_false b = ground arith

leaf_listed :
    (leaf_words first : ℕ) (l : Leaf) (x : ℕ)
    → first % 8 ≡ 0
    → x % 8 ≡ 0
    → first ≤ x
    → x < first + 256 * leaf_words
    → x < 2 ^ 32
    → has x (word_elements leaf_words first 0 l.bitmap) ≡ entry_bit l x first
leaf_listed leaf_words first l x f a low high small =
    let word : word_idx x first ≡ (x - first) / 256 = omega (arith, minus_lem x first low small) in
    let place : bit_in_word x first ≡ (x - first) / 8 % 32 =
      omega (arith, minus_lem x first low small, bit_and_31 (bit_idx x first)) in
    words_listed leaf_words first 0 l.bitmap x f a (omega arith) (omega arith)
    ∙ sym (
        test_bit_lem (l.bitmap (word_idx x first)) (bit_in_word x first)
        ∙ ap (λ i. bit (l.bitmap i) (bit_in_word x first)) word
        ∙ ap (bit (l.bitmap ((x - first) / 256))) place)

slot_bound :
    {A : Type 0} (of : A → ℕ → List ℕ) (size start : ℕ)
    → ((child : A) (begin x : ℕ)
        → has x (of child begin) ≡ true
        → (begin ≤ x) × (x < begin + 4 * size))
    → (i : ℕ) (o : Option A) (x : ℕ) → has x (slot_elements of size start i o) ≡ true
    → (start + 4 * (i * size) ≤ x) × (x < start + 4 * (i * size) + 4 * size)
unfolding slot_elements
slot_bound of size start bound i none x m = absurd (ground arith)
slot_bound of size start bound i (some child) x m = bound child (start + 4 * (i * size)) x m

-- An address of one child is in the list of that child alone.
child_listed :
    {A : Type 0} (of : A → ℕ → List ℕ) (size start : ℕ)
    → ((child : A) (begin x : ℕ)
        → has x (of child begin) ≡ true
        → (begin ≤ x) × (x < begin + 4 * size))
    → (x n i k : ℕ) (nodes : ℕ → Option A) → i ≤ k
    → k < i + n
    → start + 4 * (k * size) ≤ x
    → x < start + 4 * (k * size) + 4 * size
    → has x (children_elements of size start n i nodes)
      ≡ has x (slot_elements of size start k (nodes k))
unfolding children_elements
child_listed of size start bound x zero i k nodes l u low high = absurd (omega arith)
child_listed of size start bound x (suc n) i k nodes l u low high =
    let mine = slot_elements of size start i (nodes i) in
    let rest = children_elements of size start n (i + 1) nodes in
    has-append x mine rest ∙ elim (Bool-cases (k == i)) [
      | inl here ↦
          let at = (==_iff k i).0 here in
          let gone = not_true (has x rest) λ m.
            let (from, to) = has-children of size start bound x n (i + 1) nodes m in
            omega (arith, from, ap (λ q. start + 4 * (q * size)) at) in
          rw (gone, at) (or_false (has x mine))
      | inr later ↦
          let further = mul-le-mul_right {m = i + 1} {n = k} size (ground arith) in
          let gone = not_true (has x mine) λ m.
            let (from, to) = slot_bound of size start bound i (nodes i) x m in
            omega (arith, to, further) in
          rw gone (
            child_listed of size start bound x n (i + 1) k nodes (ground arith) (omega arith) low
              high)
    ]
  where
    or_false : (b : Bool) → (b || false) ≡ b
    or_false b = ground arith

-- The list of a tree has an address exactly if its bit is set.
pub tree_listed :
    (leaf_words entries depth : ℕ)
    → 0 < leaf_words
    → 0 < entries
    → (t : Tnode depth) (start : ℕ) (lv : Leaves) (x : ℕ) → start % 256 ≡ 0
    → x % 8 ≡ 0
    → Shaped leaf_words entries depth t start lv
    → start ≤ x
    → x < start + 4 * words leaf_words entries depth
    → x < 2 ^ 32
    → has x (tree_elements leaf_words entries depth lv t start) ≡ in_tree x depth t start lv
unfolding tree_elements in_tree look slot_elements
tree_listed leaf_words entries zero some_words some_entries t start lv x f a sh low high small =
    leaf_listed leaf_words start (lv.at t) x (omega arith) a low (omega arith) small
tree_listed leaf_words entries (suc depth) some_words some_entries t start lv x f a sh low high
      small =
    let k = child_index t.address_words_per_child start x in
    let size = words leaf_words entries depth in
    let c =
      child_lem leaf_words entries some_words some_entries x depth _ start sh.0 low high small in
    child_listed (tree_elements leaf_words entries depth lv) size start
      (λ child begin y m. has-tree_elements leaf_words entries depth lv child begin y m) x entries 0
      k t.nodes (omega arith) (omega (arith, c.bound)) c.from c.below
    ∙ elim (Option-cases (t.nodes k)) [
      | inl gone ↦ rw (gone, slot_elements) refl ∙ sym (in_tree-null x depth t start lv gone)
      | inr (child, there) ↦
          rw (there, slot_elements)
            (tree_listed leaf_words entries depth some_words some_entries child
              (start + 4 * (k * size)) lv x (place_aligned leaf_words entries depth start k f) a
              (sh.2 k c.bound child there).1 c.from c.below small)
          ∙ sym (in_tree-child x depth t start lv child _ there c.begins)
    ]

-- A valid bitmap contains an address exactly if its list has it.
has-members : (e : Extbmp) (x : ℕ) → IsValid e → Address e x → has x (members e) ≡ contains e x
unfolding contains
has-members e x v a =
    tree_listed e.leaf_words e.entries_per_inode e.depth v.some_words v.some_entries e.tree 0
      e.leaves x refl a.0 v.shaped (omega arith) (omega (arith, v.covers, a.1)) (omega (arith, a.1))

-- The membership test of a valid bitmap, for an address that it can hold, answers whether the list of
-- its addresses has the address; the bitmap is valid afterwards and contains the same addresses.
pub extbmp_is_member-members :
    (e : Extbmp) (w : ℕ)
    → IsValid e
    → Address e w
    → (e' : Extbmp) × (extbmp_is_member e w ≡ some (has w (members e), e'))
      × IsValid e'
      × Becomes e e' (contains e)
extbmp_is_member-members e w v a =
    let (e', run, valid, size, same) = extbmp_is_member_lem e v w a in
    (e', run ∙ sym (ap (λ b. some (b, e')) (has-members e w v a)), valid, same)
