-- ===== src/Remset.antt =====
-- Remembered sets: src/Rts/Sys/remset.c over the node pool of `Pool`. A word is a natural number;
-- a fixnum is a multiple of 4. A result `none` is a failed `assert`, or a chain walk that does not
-- end within the nodes of the pool. `recycled_pool` is NULL throughout, since nothing calls
-- rs_recycle, and statistics counters do not wrap.
pub mod Valid
pub mod Ops
pub mod Batch
pub mod Log2
use mathlib.Core.List.{reverse}
use larceny.Base.{
  ℕ, zero, suc, ◌+◌, ◌-◌, ◌*◌, ◌/◌, ◌%◌, max, Bool, true, false, not, ◌&&◌, ◌||◌, Option, none,
  some, List, [], ◌∷◌, update, ◌==◌, if◌then◌else◌,
}
use larceny.Pool.{
  Pool, Segment, create_pool, clear_pool, next_segment, push_node, find_node, erase_node, is_full,
  ScanState, scan_pool,
}

pub record RemsetStats : Type 0 where
  pub allocated : ℕ
  pub used : ℕ
  pub live : ℕ
  pub cleared : ℕ
  pub recorded : ℕ
  pub removed : ℕ
  pub scanned : ℕ
  pub objs_scanned : ℕ
  pub max_objs_scanned : ℕ
  pub words_scanned : ℕ
  pub max_words_scanned : ℕ

abbrev pub no_stats : RemsetStats
no_stats = record {
  allocated = 0;
  used = 0;
  live = 0;
  cleared = 0;
  recorded = 0;
  removed = 0;
  scanned = 0;
  objs_scanned = 0;
  max_objs_scanned = 0;
  words_scanned = 0;
  max_words_scanned = 0;
}

-- `struct remset` and the private data behind it.
pub record Remset : Type 0 where
  pub live : ℕ
  pub has_overflowed : Bool
  pub pool : Pool
  pub stats : RemsetStats

abbrev pub default_remset_poolsize : ℕ
default_remset_poolsize = 1024

abbrev pub default_remset_tblsize : ℕ
default_remset_tblsize = 16384

-- `while (n > 0 && (n & 1) == 0) { n /= 2; p++; }`; the fuel is never used up when it exceeds `n`.
unfoldable pub halve_while_even : ℕ → ℕ → ℕ → ℕ × ℕ
halve_while_even zero n p = (n, p)
halve_while_even (suc fuel) n p =
    let next = halve_while_even fuel (n / 2) (p + 1) in
    if not (n == 0) && (n % 2 == 0) then next else (n, p)

-- `none` is the result -1.
unfoldable pub ilog2 : ℕ → Option ℕ
ilog2 n =
    let (m, p) = halve_while_even (suc n) n 0 in
    if m % 2 == 1 then (if m / 2 == 0 then some (p + 1) else none) else none

abbrev pub is_none : {A : Type 0} → Option A → Bool
is_none none = true
is_none (some _) = false

abbrev pub or_default : ℕ → ℕ → ℕ
or_default n d = if n == 0 then d else n

-- Everything that rs_clear resets; the pool goes first.
unfoldable pub rs_clear : Remset → Remset
rs_clear rs = record {
  live = 0;
  has_overflowed = false;
  pool = clear_pool rs.pool;
  stats = record (rs.stats) { cleared = rs.stats.cleared + 1 };
}

abbrev pub new_remset : ℕ → ℕ → Remset
new_remset tbl_entries pool_entries = record {
  live = 0;
  has_overflowed = false;
  pool =
      create_pool (or_default tbl_entries default_remset_tblsize)
        (or_default pool_entries default_remset_poolsize);
  stats = no_stats;
}

unfoldable pub create_remset : ℕ → ℕ → Option Remset
unfolding ilog2
create_remset tbl_entries pool_entries =
    if not (tbl_entries == 0) && is_none (ilog2 tbl_entries)
    then none
    else some (rs_clear (new_remset tbl_entries pool_entries))

unfoldable pub handle_overflow : Remset → ℕ → ℕ → Remset
handle_overflow rs recorded pooltop =
    let curr = record (rs.pool.curr) { top = pooltop } in
    record {
      live = rs.live + recorded;
      has_overflowed = true;
      pool = next_segment (record (rs.pool) { curr = curr });
      stats = record (rs.stats) { recorded = rs.stats.recorded + recorded };
    }

-- rs_add_elem_new: no check for `w`. The second result says whether the segment was full.
unfoldable pub rs_add_elem_new : Remset → ℕ → Remset × Bool
unfolding handle_overflow
rs_add_elem_new rs w =
    let overflowed = is_full rs.pool in
    let rs' = if overflowed then handle_overflow rs 0 rs.pool.curr.top else rs in
    (
      record {
        live = rs'.live + 1;
        has_overflowed = rs'.has_overflowed;
        pool = push_node rs'.pool w;
        stats = record (rs'.stats) { recorded = rs'.stats.recorded + 1 };
      },
      overflowed,
    )

-- The insertion repeats the text of rs_add_elem_new.
unfoldable pub rs_add_elem : Remset → ℕ → Option (Remset × Bool)
unfolding rs_add_elem_new
rs_add_elem rs w = elim (find_node rs.pool w) [
  | none ↦ none
  | some b ↦ if b == 0 then some (rs_add_elem_new rs w) else some (rs, false)
]

unfoldable pub rs_del_elem : Remset → ℕ → Option Remset
rs_del_elem rs w = elim (find_node rs.pool w) [
  | none ↦ none
  | some b ↦
      if b == 0
      then some rs
      else some (record rs {
        pool = record (rs.pool) { mem = erase_node rs.pool.mem b };
        live = rs.live - 1;
      })
]

unfoldable pub rs_isremembered : Remset → ℕ → Option Bool
rs_isremembered rs w = elim (find_node rs.pool w) [ none ↦ none | some b ↦ some (not (b == 0)) ]

abbrev pub is_fixnum : ℕ → Bool
is_fixnum w = w % 4 == 0

-- The loop of rs_add_elems_funnel over the words that are left, the last one first.
unfoldable pub add_elems_down : List ℕ → Remset → Bool → Option (Remset × Bool)
add_elems_down [] rs overflowed = some (rs, overflowed)
add_elems_down (w ∷ ws) rs overflowed =
    let skipped = add_elems_down ws rs overflowed in
    if is_fixnum w then skipped else elim (rs_add_elem rs w) [
      | none ↦ none
      | some (rs', o) ↦ add_elems_down ws rs' (overflowed || o)
    ]

-- The argument lists the buffer from `bot` to `top`.
unfoldable pub rs_add_elems_funnel : Remset → List ℕ → Option (Remset × Bool)
unfolding add_elems_down
rs_add_elems_funnel rs buffer = add_elems_down (reverse buffer) rs false

-- The same over an array of sets, each word going to the set of its generation.
unfoldable pub distribute_down :
    (ℕ → ℕ) → List ℕ → (ℕ → Remset) → Bool → Option ((ℕ → Remset) × Bool)
distribute_down gen_of [] remset overflowed = some (remset, overflowed)
distribute_down gen_of (w ∷ ws) remset overflowed =
    let skipped = distribute_down gen_of ws remset overflowed in
    if is_fixnum w then skipped else elim (rs_add_elem (remset (gen_of w)) w) [
      | none ↦ none
      | some (rs', o) ↦ distribute_down gen_of ws (update remset (gen_of w) rs') (overflowed || o)
    ]

unfoldable pub rs_add_elems_distribute :
    (ℕ → ℕ) → (ℕ → Remset) → List ℕ → Option ((ℕ → Remset) × Bool)
unfolding distribute_down
rs_add_elems_distribute gen_of remset buffer = distribute_down gen_of (reverse buffer) remset false

-- The scanner's data and the word count that it keeps are one state, `S × ℕ`.
unfoldable pub rs_enumerate : {S : Type 0} → (ℕ → S × ℕ → Bool × (S × ℕ)) → Remset → S → Remset × S
rs_enumerate scanner rs s =
    let t = scan_pool scanner rs.pool (s, 0) in
    let words = t.state.1 in
    (
      record rs {
        live = rs.live - t.removed;
        pool = record (rs.pool) { mem = t.mem };
        stats = record (rs.stats) {
          objs_scanned = rs.stats.objs_scanned + t.scanned;
          max_objs_scanned = max rs.stats.max_objs_scanned t.scanned;
          words_scanned = rs.stats.words_scanned + words;
          max_words_scanned = max rs.stats.max_words_scanned words;
          removed = rs.stats.removed + t.removed;
          scanned = rs.stats.scanned + 1;
        };
      },
      t.state.0,
    )

-- The record handed to stats_add_remset_stats, and the set with its counters at 0.
unfoldable pub rs_stats : Remset → RemsetStats × Remset
rs_stats rs =
    let d = rs.pool in
    (
      record (rs.stats) {
        allocated = d.tbl_size + d.pool_entries * d.numpools * 2;
        used = d.tbl_size + d.pool_entries * (d.numpools - 1) * 2 + (d.curr.top - d.curr.bot) * 2;
        live = d.tbl_size + rs.live;
      },
      record rs { stats = no_stats },
    )
