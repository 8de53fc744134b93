-- ===== src/Locset.antt =====
-- Location sets: src/Rts/Sys/locset.c over the node pool of `Pool`. A location is the address of a
-- slot (`loc_t` as summary_t.h declares it by default), and 0 is a cleared location. A result
-- `none` is a failed `assert`, or a chain walk that does not end within the nodes of the pool.
pub mod Valid
pub mod Batch
use larceny.Base.{
  ℕ, zero, suc, ◌+◌, ◌-◌, ◌%◌, ◌^◌, Bool, true, false, not, ◌&&◌, Option, none, some, List, [], ◌∷◌,
  ◌==◌, if◌then◌else◌,
}
use larceny.Pool.{
  Pool, create_pool, clear_pool, next_segment, push_node, find_node, is_full, ScanState, scan_pool,
}
use larceny.Remset.{ilog2, is_none, or_default}

pub record Locset : Type 0 where
  pub live : ℕ
  pub pool : Pool

abbrev pub default_locset_poolsize : ℕ
default_locset_poolsize = 1024

abbrev pub default_locset_tblsize : ℕ
default_locset_tblsize = 16384

unfoldable pub ls_clear : Locset → Locset
ls_clear ls = record { live = 0; pool = clear_pool ls.pool }

abbrev pub new_locset : ℕ → ℕ → Locset
new_locset tbl_entries pool_entries = record {
  live = 0;
  pool =
      create_pool (or_default tbl_entries default_locset_tblsize)
        (or_default pool_entries default_locset_poolsize);
}

unfoldable pub create_locset : ℕ → ℕ → Option Locset
create_locset tbl_entries pool_entries =
    if not (tbl_entries == 0) && is_none (ilog2 tbl_entries)
    then none
    else some (ls_clear (new_locset tbl_entries pool_entries))

-- The part of ls_add_loc behind the search.
unfoldable pub insert_loc : Locset → ℕ → Locset
insert_loc ls loc =
    let d = if is_full ls.pool then next_segment ls.pool else ls.pool in
    record { live = ls.live + 1; pool = push_node d loc }

unfoldable pub ls_add_loc : Locset → ℕ → Option Locset
ls_add_loc ls loc = elim (find_node ls.pool loc) [
  | none ↦ none
  | some b ↦ if b == 0 then some (insert_loc ls loc) else some ls
]

-- `ptrof(obj) + offset` on 32-bit words; the tag of a pointer is its low three bits.
unfoldable pub make_loc : ℕ → ℕ → ℕ
make_loc obj offset = (obj - obj % 8 + offset) % 2 ^ 32

unfoldable pub ls_add_obj_offset : Locset → ℕ → ℕ → Option Locset
ls_add_obj_offset ls objptr offset =
    if offset % 4 == 0 then ls_add_loc ls (make_loc objptr offset) else none

-- ls_ismember and ls_ismember_loc compare the same slots.
unfoldable pub ls_ismember : Locset → ℕ → Option Bool
ls_ismember ls loc = elim (find_node ls.pool loc) [ none ↦ none | some b ↦ some (not (b == 0)) ]

unfoldable pub ls_enumerate_locs : {S : Type 0} → (ℕ → S → Bool × S) → Locset → S → Locset × S
ls_enumerate_locs scanner ls s =
    let t = scan_pool scanner ls.pool s in
    (record { live = ls.live - t.removed; pool = record (ls.pool) { mem = t.mem } }, t.state)

-- `none` stays `none` once a call has failed.
unfoldable pub scan_add_loc : ℕ → Option Locset → Bool × Option Locset
scan_add_loc loc none = (true, none)
scan_add_loc loc (some ls) = (true, ls_add_loc ls loc)

-- The source is enumerated, and comes back beside the target.
unfoldable pub ls_copy_all_from : Locset → Locset → Locset × Option Locset
unfolding scan_add_loc
ls_copy_all_from ls source = ls_enumerate_locs scan_add_loc source (some ls)

-- The log is read from the front, two words at a time: a pointer and a fixnum.
unfoldable pub ls_add_elems_funnel : Locset → List ℕ → Option Locset
ls_add_elems_funnel ls [] = some ls
ls_add_elems_funnel ls (w1 ∷ []) = none
ls_add_elems_funnel ls (w1 ∷ w2 ∷ ws) =
    if (w1 % 2 == 1) && (w2 % 4 == 0)
    then elim (ls_add_obj_offset ls w1 w2) [ none ↦ none | some ls' ↦ ls_add_elems_funnel ls' ws ]
    else none
