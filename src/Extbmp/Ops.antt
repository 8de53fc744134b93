-- ===== src/Extbmp/Ops.antt =====
-- Adding, deleting and testing an address. `gen_of` looks up the generation of an address in the
-- page table and is a parameter.
use larceny.Base.{
  ℕ, ◌/◌, ◌%◌, ◌^◌, Bool, false, not, ◌&&◌, Option, none, some, update, bit_and, ltb, leb, ◌==◌,
  if◌then◌else◌,
}
use larceny.Bits.{test_bit, set_bit, clear_bit}
use larceny.Extbmp.{Leaf, Extbmp, minus, asserted, leaf_wordaddr_lim}
use larceny.Extbmp.Lists.{modify, insert_leaf_in_list, move_leaf_to_mixed_list}
use larceny.Extbmp.Find.{find_or_alloc_leaf, find_leaf_or_fail}

-- the bit of an address in a leaf that begins at `first`: its word and its place in the word
abbrev pub bit_idx : ℕ → ℕ → ℕ
bit_idx w first = minus w first / 2 ^ 3

abbrev pub word_idx : ℕ → ℕ → ℕ
word_idx w first = bit_idx w first / 2 ^ 5

abbrev pub bit_in_word : ℕ → ℕ → ℕ
bit_in_word w first = bit_and (bit_idx w first) 31

abbrev pub entry_bit : Leaf → ℕ → ℕ → Bool
entry_bit l w first = test_bit (l.bitmap (word_idx w first)) (bit_in_word w first)

-- a leaf with the word of an address changed at the address's bit
abbrev pub change_bit : (ℕ → ℕ → ℕ) → ℕ → ℕ → Leaf → Leaf
change_bit change w first l =
    let i = word_idx w first in
    record l { bitmap = update l.bitmap i (change (l.bitmap i) (bit_in_word w first)) }

abbrev pub with_bit : (ℕ → ℕ → ℕ) → Extbmp → ℕ → ℕ → ℕ → Extbmp
with_bit change ebmp leaf w first = record ebmp {
  leaves = modify ebmp.leaves leaf (change_bit change w first);
}

-- the list that the leaf belongs on, once an address of generation `gno` is in it
unfoldable pub relist : Extbmp → ℕ → ℕ → Option Extbmp
relist ebmp leaf gno = elim (ebmp.leaves.at leaf).gno [
  | none ↦ insert_leaf_in_list ebmp leaf gno
  | some g ↦
      if g == 0
      then some ebmp
      else if g == gno
      then some ebmp
      else move_leaf_to_mixed_list ebmp leaf g
]

module _ (gen_of : ℕ → ℕ) where
  unfoldable pub extbmp_add_elem : Extbmp → ℕ → Option (Bool × Extbmp)
  extbmp_add_elem ebmp w = asserted (w % 8 == 0) (elim (find_or_alloc_leaf ebmp w) [
    | none ↦ none
    | some (none, e) ↦ none
    | some (some (leaf, first), e) ↦
        asserted (leb first w && ltb w (leaf_wordaddr_lim e.leaf_words first)) (
          asserted (not (gen_of w == 0))
            (elim (relist (with_bit set_bit e leaf w first) leaf (gen_of w)) [
              | none ↦ none
              | some e' ↦ some (entry_bit (e.leaves.at leaf) w first, e')
            ]))
  ])

unfoldable pub extbmp_del_elem : Extbmp → ℕ → Option Extbmp
extbmp_del_elem ebmp w = elim (find_leaf_or_fail ebmp w) [
  | none ↦ none
  | some (none, e) ↦ some e
  | some (some (leaf, first), e) ↦
      some (if entry_bit (e.leaves.at leaf) w first then with_bit clear_bit e leaf w first else e)
]

-- the answer, and the bitmap with its cache
unfoldable pub extbmp_is_member : Extbmp → ℕ → Option (Bool × Extbmp)
extbmp_is_member ebmp w = elim (find_leaf_or_fail ebmp w) [
  | none ↦ none
  | some (none, e) ↦ some (false, e)
  | some (some (leaf, first), e) ↦ some (entry_bit (e.leaves.at leaf) w first, e)
]

unfoldable pub kill_member : Extbmp → ℕ → Option Extbmp
kill_member ebmp w = elim (find_leaf_or_fail ebmp w) [
  | none ↦ none
  | some (none, e) ↦ some e
  | some (some (leaf, first), e) ↦ some (with_bit clear_bit e leaf w first)
]
