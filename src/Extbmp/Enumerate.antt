-- ===== src/Extbmp/Enumerate.antt =====
-- The enumeration of a bitmap: a scanner sees each address that a request asks for and tells
-- whether the address stays. Empty leaves and nodes are freed. The scanner is a function of an address
-- and of its data; the page table (`gen_of`), the generation count and the memory that holds the
-- headers of objects are parameters. The flag `holds` is false once an assertion has failed.
use larceny.Base.{
  ℕ, zero, suc, ◌+◌, ◌-◌, ◌*◌, ◌/◌, ◌%◌, ◌^◌, Bool, true, false, not, ◌&&◌, ◌||◌, Option, none,
  some, update, bit_and, bit_or, ltb, leb, ◌==◌, if◌then◌else◌,
}
use larceny.Bits.{test_bit, clear_bit}
use larceny.Extbmp.{Leaf, Tnode, Extbmp, wrap, leaf_wordaddr_lim}
use larceny.Extbmp.Lists.{modify, free_leaf}

-- what to enumerate: the arguments that the recursion passes on
pub record Request : Type 0 where
  pub gno : ℕ
  pub ignore_gno : Bool
  pub gno_is_static_area : Bool
  pub need_tagged_ptr : Bool
  pub first_enum : ℕ
  pub limit_enum : ℕ

pub record Environment : Type 0 where
  pub gen_of : ℕ → ℕ
  pub gno_count : ℕ
  pub heap : ℕ → ℕ

-- the tag of an object by its header
abbrev pub tag_of_header : ℕ → ℕ
tag_of_header w =
    if bit_and w 0x83 == 0x82
    then (if bit_and w 0xE3 == 0xC2 then 5 else if bit_and w 0xE3 == 0xA2 then 3 else 7)
    else 1

abbrev pub tagged : Environment → Request → ℕ → ℕ
tagged env r obj = if r.need_tagged_ptr then bit_or obj (tag_of_header (env.heap obj)) else obj

-- whether the address belongs to the generation that is asked for
abbrev pub wanted : Environment → Request → ℕ → Bool
wanted env r obj =
    let obj2 = bit_or obj 1 in
    if r.ignore_gno
    then true
    else not (
        (r.gno_is_static_area && not (env.gen_of obj2 == env.gno_count - 1))
        || (not r.gno_is_static_area && not (env.gen_of obj2 == r.gno)))

-- the scanner's data, with the assertions so far
abbrev pub Scan : Type 0 → Type 0
Scan S = S × Bool

module _ {S : Type 0} (env : Environment) (r : Request) (scanner : ℕ → S → Bool × S) where
  abbrev pub object_at : ℕ → ℕ → ℕ → ℕ
  object_at first word_idx j = wrap (first + (word_idx * 32 + j) * 2 ^ 3)

  -- the visit of one address: whether it stays
  unfoldable pub visit : ℕ → Scan S → Bool × Scan S
  visit obj (s, holds) =
      let ok = holds && (obj % 8 == 0) in
      if wanted env r obj
      then (let (keep, t) = scanner (tagged env r obj) s in (keep, (t, ok)))
      else (true, (s, ok))

  -- one bit of a word: the word and the scanner's data after it
  unfoldable pub scan_bit : ℕ → ℕ → ℕ → ℕ → Scan S → ℕ × Scan S
  scan_bit first word_idx j curr st =
      let (keep, st') = visit (object_at first word_idx j) st in
      if test_bit curr j then (if keep then curr else clear_bit curr j, st') else (curr, st)

  -- `n` rounds of the loop over the bits of a word from bit `j` on.
  unfoldable pub scan_bits : ℕ → ℕ → ℕ → ℕ → ℕ → Scan S → ℕ × Scan S
  scan_bits zero first word_idx j curr st = (curr, st)
  scan_bits (suc n) first word_idx j curr st =
      let (curr', st') = scan_bit first word_idx j curr st in
      scan_bits n first word_idx (j + 1) curr' st'

  pub record LeafScan : Type 0 where
    pub bitmap : ℕ → ℕ
    pub found_nonzero_word : Bool
    pub scan : Scan S

  -- one word of a leaf
  unfoldable pub scan_word : ℕ → ℕ → LeafScan → LeafScan
  scan_word first word_idx l =
      let orig = l.bitmap word_idx in
      let (curr, st) = scan_bits 32 first word_idx 0 orig l.scan in
      if orig == 0 then l else record {
        bitmap = if curr == orig then l.bitmap else update l.bitmap word_idx curr;
        found_nonzero_word = l.found_nonzero_word || not (curr == 0);
        scan = st;
      }

  -- `n` rounds of the loop over the words of a leaf.
  unfoldable pub scan_words : ℕ → ℕ → ℕ → LeafScan → LeafScan
  scan_words zero first word_idx l = l
  scan_words (suc n) first word_idx l =
      scan_words n first (word_idx + 1) (scan_word first word_idx l)

  -- the words of a leaf that are scanned, from the first to the limit
  abbrev pub first_word : ℕ → ℕ
  first_word first = if ltb first r.first_enum then (r.first_enum - first) / 2 ^ 3 / 32 else 0

  abbrev pub word_limit : ℕ → ℕ → ℕ → ℕ
  word_limit leaf_words first limit =
      if ltb r.limit_enum limit
      then leaf_words - (limit - r.limit_enum) / 2 ^ 3 / 32
      else leaf_words

  -- Whether the leaf may be freed, its bitmap, and the scanner's data.
  unfoldable pub tnode_enum_leaf : ℕ → (ℕ → ℕ) → ℕ → Scan S → Bool × (ℕ → ℕ) × Scan S
  tnode_enum_leaf leaf_words bitmap first (s, holds) =
      let limit = wrap (first + 2 * 4 * 8 * 4 * leaf_words) in
      let low = first_word first in
      let high = word_limit leaf_words first limit in
      let ok = holds && (limit == leaf_wordaddr_lim leaf_words first) in
      let ok_low = ok && ltb low leaf_words in
      let ok_high = ok_low && leb high leaf_words in
      let l = scan_words (high - low) first low (record {
        bitmap = bitmap;
        found_nonzero_word = ltb 0 low || ltb high leaf_words;
        scan = (s, ok_high);
      }) in
      if leb limit r.first_enum
      then (false, bitmap, (s, ok))
      else if leb r.limit_enum first
      then (false, bitmap, (s, ok_low))
      else (not l.found_nonzero_word, l.bitmap, l.scan)

  pub record EnumState : Type 0 where
    pub ebmp : Extbmp
    pub leaves_enumerated : ℕ
    pub nodes_enumerated : ℕ
    pub scan : Scan S

  abbrev pub free_node : (depth : ℕ) → Tnode depth → EnumState → EnumState
  free_node zero leaf st = record st { ebmp = free_leaf st.ebmp leaf }
  free_node (suc depth) inode st = st

  -- the children of a node in the loop, with `found_nonempty_tree`
  abbrev pub Children : Type 0 → Type 0
  Children A = (ℕ → Option A) × Bool × EnumState

  abbrev pub enum_child :
      (depth : ℕ)
      → (Tnode depth → ℕ → EnumState → Bool × Tnode depth × EnumState)
      → ℕ
      → ℕ
      → ℕ
      → Children (Tnode depth)
      → Children (Tnode depth)
  enum_child depth enumerate per_child first i (nodes, found, st) = elim (nodes i) [
    | none ↦ (nodes, found, st)
    | some child ↦
        let (empty, child', st') = enumerate child (wrap (first + 4 * (i * per_child))) st in
        if empty
        then (update nodes i none, found, free_node depth child' st')
        else (update nodes i (some child'), true, st')
  ]

  -- `n` rounds of the loop over the children from child `i` on.
  unfoldable pub enum_children :
      (depth : ℕ)
      → (Tnode depth → ℕ → EnumState → Bool × Tnode depth × EnumState)
      → ℕ
      → ℕ
      → ℕ
      → ℕ
      → Children (Tnode depth)
      → Children (Tnode depth)
  enum_children depth enumerate per_child first zero i c = c
  enum_children depth enumerate per_child first (suc n) i c =
      enum_children depth enumerate per_child first n (i + 1)
        (enum_child depth enumerate per_child first i c)

  -- The limit of a node is computed in words and added to an address in bytes, as in the code.
  abbrev pub node_limit : ℕ → ℕ → ℕ → ℕ
  node_limit per_child entries first = wrap (first + per_child * entries)

  abbrev pub first_child : ℕ → ℕ → ℕ
  first_child per_child first =
      if ltb first r.first_enum then (r.first_enum - first) / 4 / per_child else 0

  abbrev pub child_limit : ℕ → ℕ → ℕ → ℕ → ℕ
  child_limit per_child entries first limit =
      if ltb r.limit_enum limit then entries - (limit - r.limit_enum) / 4 / per_child else entries

  abbrev pub and_holds : Bool → EnumState → EnumState
  and_holds b st = record st { scan = (st.scan.0, st.scan.1 && b) }

  -- Whether the tree may be freed, the tree, and the state.
  unfoldable pub tnode_enumerate :
      (depth : ℕ) → Tnode depth → ℕ → EnumState → Bool × Tnode depth × EnumState
  tnode_enumerate zero leaf first st =
      let bits = (st.ebmp.leaves.at leaf).bitmap in
      let (empty, bitmap, scan) = tnode_enum_leaf st.ebmp.leaf_words bits first st.scan in
      let write = λ (l : Leaf). record l { bitmap = bitmap } in
      (
        empty,
        leaf,
        record st {
          ebmp = record st.ebmp { leaves = modify st.ebmp.leaves leaf write };
          leaves_enumerated = st.leaves_enumerated + 1;
          scan = scan;
        },
      )
  tnode_enumerate (suc depth) inode first st =
      let entries = st.ebmp.entries_per_inode in
      let per_child = inode.address_words_per_child in
      let counted = record st { nodes_enumerated = st.nodes_enumerated + 1 } in
      let low = first_child per_child first in
      let high = child_limit per_child entries first (node_limit per_child entries first) in
      let ready = and_holds (ltb low entries && leb high entries) counted in
      let (nodes, found, st') =
        enum_children depth (tnode_enumerate depth) per_child first (high - low) low
          (inode.nodes, ltb 0 low || ltb high entries, ready) in
      if leb r.limit_enum first
      then (false, inode, counted)
      else if ltb (first + 4 * inode.address_range_in_words) r.first_enum
      then (false, inode, counted)
      else (not found, record inode { nodes = nodes }, st')
