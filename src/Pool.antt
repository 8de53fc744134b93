-- ===== src/Pool.antt =====
-- The storage that remset.c and locset.c share in all but name: a chaining hash table whose nodes
-- lie in a list of pool segments. An address counts nodes (two words in remset.c), 0 is NULL, and
-- memory is a function from addresses to nodes. `brk` is the next address that gclib_alloc_rts
-- gives out: a new block overlaps no earlier one. An object word of 0 marks a removed node.
pub mod Walk
pub mod Contents
pub mod Sound
pub mod Grow
pub mod Insert
pub mod Add
pub mod Clear
pub mod Erase
pub mod Scan
use mathlib.Core.List.{foldl}
use larceny.Base.{
  ℕ, zero, suc, ◌+◌, ◌-◌, ◌/◌, ◌^◌, bit_and, Bool, true, false, ◌||◌, Option, none, some, List, [],
  ◌∷◌, ◌++◌, length, span, update, ◌==◌, if◌then◌else◌,
}

pub record Node : Type 0 where
  pub object : ℕ
  pub next : ℕ

abbrev pub Memory : Type 0
Memory = ℕ → Node

-- `struct pool`, less the link to the next one: see `Pool`.
pub record Segment : Type 0 where
  pub bot : ℕ
  pub top : ℕ
  pub lim : ℕ

-- The list of segments is cut at `curr`: `before` runs from first_pool up to it.
pub record Pool : Type 0 where
  pub tbl_size : ℕ
  pub tbl : ℕ → ℕ
  pub mem : Memory
  pub brk : ℕ
  pub before : List Segment
  pub curr : Segment
  pub after : List Segment
  pub pool_entries : ℕ
  pub numpools : ℕ

unfoldable pub hash_object : ℕ → ℕ → ℕ
hash_object w mask = bit_and (w / 2 ^ 4) mask

-- the bucket of a word
abbrev pub bucket : Pool → ℕ → ℕ
bucket d w = hash_object w (d.tbl_size - 1)

-- The addresses between `bot` and `top`, and those of all the segments up to the current one.
abbrev pub nodes_of : Segment → List ℕ
nodes_of s = span s.bot (s.top - s.bot)

abbrev pub nodes_in : List Segment → List ℕ
nodes_in [] = []
nodes_in (s ∷ ss) = nodes_of s ++ nodes_in ss

abbrev pub slots : Pool → List ℕ
slots d = nodes_in d.before ++ nodes_of d.curr

abbrev pub new_segment : ℕ → ℕ → Segment
new_segment brk entries = record { bot = brk; top = brk; lim = brk + entries }

-- A zeroed table, one empty segment.
unfoldable pub create_pool : ℕ → ℕ → Pool
create_pool tbl_entries pool_entries = record {
  tbl_size = tbl_entries;
  tbl = λ _. 0;
  mem = λ _. record { object = 0; next = 0 };
  brk = 1 + pool_entries;
  before = [];
  curr = new_segment 1 pool_entries;
  after = [];
  pool_entries = pool_entries;
  numpools = 1;
}

abbrev pub first_of_segments : List Segment → Segment → Segment
first_of_segments [] c = c
first_of_segments (s ∷ ss) c = s

-- The table is zeroed, the first segment emptied, and the others given back.
unfoldable pub clear_pool : Pool → Pool
clear_pool d =
    let first = first_of_segments d.before d.curr in
    record d {
      tbl = λ _. 0;
      before = [];
      curr = record first { top = first.bot };
      after = [];
      numpools = 1;
    }

-- The step to the next segment, which is allocated where there is none.
unfoldable pub next_segment : Pool → Pool
next_segment d = elim d.after [
  | [] ↦ record d {
    brk = d.brk + d.pool_entries;
    before = d.before ++ d.curr ∷ [];
    curr = new_segment d.brk d.pool_entries;
    after = [];
    numpools = d.numpools + 1;
  }
  | s ∷ rest ↦ record d { before = d.before ++ d.curr ∷ []; curr = s; after = rest }
]

-- `while (b != 0 && *b != w) b = next`; `none` is a walk that does not end on the fuel.
unfoldable pub walk : ℕ → Memory → ℕ → ℕ → Option ℕ
walk zero mem b w = none
walk (suc fuel) mem b w =
    let rest = walk fuel mem (mem b).next w in
    if b == 0 then some 0 else if (mem b).object == w then some b else rest

-- A chain holds no more nodes than the segments do.
unfoldable pub find_node : Pool → ℕ → Option ℕ
unfolding walk
find_node d w = walk (suc (length (slots d))) d.mem (d.tbl (bucket d w)) w

-- The four writes that put `w` at the head of its chain.
unfoldable pub push_node : Pool → ℕ → Pool
push_node d w =
    let h = bucket d w in
    record d {
      mem = update d.mem d.curr.top (record { object = w; next = d.tbl h });
      tbl = update d.tbl h d.curr.top;
      curr = record { bot = d.curr.bot; top = d.curr.top + 1; lim = d.curr.lim };
    }

abbrev pub is_full : Pool → Bool
is_full d = d.curr.top == d.curr.lim

-- The insertion, with the step to the next segment that comes first when the current one is full.
unfoldable pub insert_node : Pool → ℕ → Pool
unfolding push_node next_segment
insert_node d w = push_node (if is_full d then next_segment d else d) w

-- `*b = 0`: the node stays in its chain.
unfoldable pub erase_node : Memory → ℕ → Memory
erase_node mem b = update mem b (record { object = 0; next = (mem b).next })

-- The state of a scan: memory, the scanner's data, and the counts of nodes removed and scanned.
pub record ScanState (S : Type 0) : Type 0 where
  pub mem : Memory
  pub state : S
  pub removed : ℕ
  pub scanned : ℕ

module _ {S : Type 0} (scanner : ℕ → S → Bool × S) where
  -- the body of the inner loop
  unfoldable pub scan_node : ScanState S → ℕ → ScanState S
  unfolding erase_node
  scan_node t p =
      if (t.mem p).object == 0
      then t
      else let (keep, s) = scanner (t.mem p).object t.state in
        record {
          mem = if keep then t.mem else erase_node t.mem p;
          state = s;
          removed = if keep then t.removed else t.removed + 1;
          scanned = t.scanned + 1;
        }

  unfoldable pub scan_segment : ScanState S → Segment → ScanState S
  unfolding scan_node
  scan_segment t s = foldl scan_node t (nodes_of s)

  -- from first_pool up to curr_pool
  unfoldable pub scan_pool : Pool → S → ScanState S
  unfolding scan_segment
  scan_pool d s =
      foldl scan_segment (record { mem = d.mem; state = s; removed = 0; scanned = 0 })
        (d.before ++ d.curr ∷ [])
