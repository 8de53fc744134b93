-- ===== src/Extbmp.antt =====
-- Extensible bitmaps: src/Rts/Sys/extbmp.c, a set of double-word aligned addresses as a tree whose
-- leaves are bitmaps. The depth of a tree is an index of its type, which stands for the tags that
-- the code asserts. A tree owns its inner nodes; leaves are shared by the tree, the cache and the
-- lists of each generation, so they stand in a memory and are named by their addresses, 0 being
-- NULL. The generation number -2 of a leaf on no list is `none`. A result `none` is an assertion
-- that fails. Words have 32 bits and 4 bytes.
pub mod Lists
pub mod Find
pub mod Ops
pub mod Index
pub mod Shape
pub mod Grow
pub mod Alloc
pub mod Linked
pub mod Valid
pub mod Search
pub mod Change
pub mod Relist
pub mod Effect
pub mod Member
pub mod Create
pub mod Enumerate
pub mod Elements
pub mod Words
pub mod Window
pub mod Tree
pub mod Free
pub mod Visited
pub mod Children
pub mod Range
pub mod Whole
pub mod Requests
pub mod All
pub mod Listed
pub mod Session
use larceny.Base.{
  ℕ, zero, suc, ◌+◌, ◌-◌, ◌*◌, ◌/◌, ◌%◌, ◌^◌, Bool, Option, none, some, update, ltb, leb, ◌==◌,
  if◌then◌else◌,
}

pub record Leaf : Type 0 where
  pub start : ℕ
  pub limit : ℕ
  pub gno : Option ℕ
  pub prev_for_gno : ℕ
  pub next_for_gno : ℕ
  pub bitmap : ℕ → ℕ

pub record Inode (A : Type 0) : Type 0 where
  pub start : ℕ
  pub limit : ℕ
  pub address_range_in_words : ℕ
  pub address_words_per_child : ℕ
  pub nodes : ℕ → Option A

-- a tree of a depth: the address of a leaf at depth 0
abbrev pub Tnode : ℕ → Type 0
Tnode zero = ℕ
Tnode (suc depth) = Inode (Tnode depth)

-- the memory of the leaves, with the next address to hand out, and their count
pub record Leaves : Type 0 where
  pub at : ℕ → Leaf
  pub brk : ℕ
  pub leaf_count : ℕ

pub record Extbmp : Type 0 where
  pub leaf_words : ℕ
  pub entries_per_inode : ℕ
  pub depth : ℕ
  pub tree : Tnode depth
  pub leaves : Leaves
  pub mru_leaf : ℕ
  pub mru_first : ℕ
  pub gno_to_leaf : ℕ → ℕ
  pub gno_count : ℕ

abbrev pub wrap : ℕ → ℕ
wrap n = n % 2 ^ 32

-- the difference of two words
abbrev pub minus : ℕ → ℕ → ℕ
minus a b = wrap (a + 2 ^ 32 - b)

abbrev pub asserted : {A : Type 0} → Bool → Option A → Option A
asserted holds result = if holds then result else none

abbrev pub ceildiv : ℕ → ℕ → ℕ
ceildiv x y = (x + (y - 1)) / y * y / y

unfoldable pub leaf_wordaddr_lim : ℕ → ℕ → ℕ
leaf_wordaddr_lim leaf_words first = wrap (first + 4 * (64 * leaf_words))

abbrev pub cleared_leaf : ℕ → ℕ → Leaf
cleared_leaf start limit = record {
  start = start;
  limit = limit;
  gno = none;
  prev_for_gno = 0;
  next_for_gno = 0;
  bitmap = λ _. 0;
}

unfoldable pub alloc_leaf : ℕ → ℕ → ℕ → Leaves → Option (ℕ × Leaves)
alloc_leaf leaf_words start limit lv = asserted (wrap (start + 4 * (64 * leaf_words)) == limit) (
    some (
      lv.brk,
      record {
        at = update lv.at lv.brk (cleared_leaf start limit);
        brk = lv.brk + 1;
        leaf_count = lv.leaf_count + 1;
      },
    ))

unfoldable pub alloc_inode : {A : Type 0} → ℕ → ℕ → ℕ → ℕ → Option (Inode A)
alloc_inode entries range start limit =
    let per_child = ceildiv range entries in
    asserted (ltb 0 range) (
      asserted (ltb 0 per_child) (
        asserted (leb range (per_child * entries)) (
          some (record {
            start = start;
            limit = wrap limit;
            address_range_in_words = range;
            address_words_per_child = per_child;
            nodes = λ _. none;
          }))))

-- The levels that `n` rounds of the loop of the constructor count, with the range of addresses.
unfoldable pub levels : ℕ → ℕ → ℕ → ℕ → ℕ → ℕ → ℕ × ℕ
levels zero entries max_leaves i tot addr_range = (i, addr_range)
levels (suc n) entries max_leaves i tot addr_range =
    let rest = levels n entries max_leaves (i + 1) (tot * entries) (addr_range * entries) in
    if ltb tot max_leaves then rest else (i, addr_range)

abbrev pub null_leaf : Leaf
null_leaf = cleared_leaf 0 0

abbrev pub shifted_address_space : ℕ
shifted_address_space = 2 ^ 32 / 8

-- A depth of zero makes the code take the root for a leaf; it is `none` here.
unfoldable pub create_extensible_bitmap_params : ℕ → ℕ → ℕ → Option Extbmp
create_extensible_bitmap_params leaf_bytes entries gno_count =
    let leaf_words = ceildiv leaf_bytes 4 in
    let max_leaves = shifted_address_space / (32 * leaf_words) in
    let (depth, range) = levels max_leaves entries max_leaves 0 1 (64 * leaf_words) in
    asserted (leaf_bytes % 8 == 0) (
      asserted (ltb 0 max_leaves) (elim depth [
        | zero ↦ none
        | suc d ↦ elim (alloc_inode entries range 0 (shifted_address_space * 8)) [
          | none ↦ none
          | some root ↦ some (record {
            leaf_words = leaf_words;
            entries_per_inode = entries;
            depth = suc d;
            tree = root;
            leaves = record { at = λ _. null_leaf; brk = 1; leaf_count = 0 };
            mru_leaf = 0;
            mru_first = 0;
            gno_to_leaf = λ _. 0;
            gno_count = gno_count;
          })
        ]
      ]))

abbrev pub default_leaf_bytes : ℕ
default_leaf_bytes = 8 * 4096

abbrev pub default_entries_per_inode : ℕ
default_entries_per_inode = 46

unfoldable pub create_extensible_bitmap : ℕ → Option Extbmp
create_extensible_bitmap gno_count =
    create_extensible_bitmap_params default_leaf_bytes default_entries_per_inode gno_count
