-- ===== src/Locset/Valid.antt =====
-- What a location set stands for, its invariant, and the single operations.
use larceny.Base.{
  ℕ, ◌+◌, ◌≡◌, refl, ap, ◌∙◌, ◌≢◌, ◌<◌, List, [], ◌∷◌, ◌++◌, some, Bool, false, arith, has, length,
  length-append, if◌then◌else◌, Bool-cases, inl, inr,
}
use larceny.Pool.{insert_node}
use larceny.Pool.Contents.{elements}
use larceny.Pool.Sound.{IsSound, find_node-found, found-has}
use larceny.Pool.Add.{insert_node-IsSound, elements-insert_node}
use larceny.Pool.Erase.{Thins-IsSound}
use larceny.Pool.Scan.{sift, scan_pool-Sifts}
use larceny.Pool.Clear.{create_pool-IsSound, clear_pool-IsSound, slots-clear_pool, elements-empty}
use larceny.Remset.Log2.{IsTableSize, table_size_ok}
use larceny.Remset.{or_default}
use larceny.Locset.{
  Locset, create_locset, new_locset, default_locset_poolsize, ls_clear, insert_loc, ls_add_loc,
  ls_ismember, ls_enumerate_locs,
}

-- The locations in the set, in the order in which they were recorded.
abbrev pub ls_elements : Locset → List ℕ
ls_elements ls = elements ls.pool

pub record IsValid (ls : Locset) : Type 0 where
  pub sound : IsSound ls.pool
  pub live : ls.live ≡ length (ls_elements ls)

-- Clearing a set with a sound pool leaves a valid set without elements.
pub ls_clear-IsValid :
    (ls : Locset) → IsSound ls.pool → IsValid (ls_clear ls) × (ls_elements (ls_clear ls) ≡ [])
unfolding ls_clear
ls_clear-IsValid ls s =
    let none_left = elements-empty (ls_clear ls).pool (slots-clear_pool ls.pool) in
    (record { sound = clear_pool-IsSound ls.pool s; live = rw none_left refl }, none_left)

-- Creating a set ends for a table size of 0 or a power of two, and the set is valid and empty.
pub create_locset-IsValid :
    (tbl_entries pool_entries : ℕ)
    → IsTableSize tbl_entries
    → (ls : Locset) × (create_locset tbl_entries pool_entries ≡ some ls)
      × IsValid ls
      × (ls_elements ls ≡ [])
unfolding create_locset
create_locset-IsValid t n h =
    let some_entries : 0 < or_default n default_locset_poolsize = ground arith in
    let (valid, empty) = ls_clear-IsValid (new_locset t n) (create_pool-IsSound _ _ some_entries) in
    (ls_clear (new_locset t n), rw (table_size_ok t h) refl, valid, empty)

-- In a valid set the membership test ends, and it answers whether a location that is not NULL is
-- among the elements.
pub ls_ismember-elements :
    (ls : Locset) (loc : ℕ)
    → IsValid ls
    → loc ≢ 0
    → ls_ismember ls loc ≡ some (has loc (ls_elements ls))
unfolding ls_ismember
ls_ismember-elements ls loc v n =
    rw (find_node-found ls.pool v.sound loc, ls_ismember)
      (ground (arith, found-has ls.pool v.sound loc n))

insert-pool : (ls : Locset) (loc : ℕ) → (insert_loc ls loc).pool ≡ insert_node ls.pool loc
unfolding insert_loc insert_node
insert-pool ls loc = refl

insert-live : (ls : Locset) (loc : ℕ) → (insert_loc ls loc).live ≡ ls.live + 1
unfolding insert_loc
insert-live ls loc = refl

pub insert_loc-IsValid :
    (ls : Locset) (loc : ℕ)
    → IsValid ls
    → loc ≢ 0
    → has loc (ls_elements ls) ≡ false
    → IsValid (insert_loc ls loc) × (ls_elements (insert_loc ls loc) ≡ ls_elements ls ++ loc ∷ [])
insert_loc-IsValid ls loc v n out =
    let same = ap elements (insert-pool ls loc) ∙ elements-insert_node ls.pool v.sound loc n out in
    (
      record {
        sound = rw (insert-pool ls loc) (insert_node-IsSound ls.pool v.sound loc n out);
        live = rw (same, length-append) (omega (arith, insert-live ls loc, v.live));
      },
      same,
    )

-- Adding a location that is not NULL to a valid set ends: one that is in the set leaves the set as it is, any
-- other is appended to the elements, and the set stays valid.
pub ls_add_loc-IsValid :
    (ls : Locset) (loc : ℕ)
    → IsValid ls
    → loc ≢ 0
    → (r : Locset) × (ls_add_loc ls loc ≡ some r)
      × IsValid r
      × (ls_elements r
          ≡ (if has loc (ls_elements ls) then ls_elements ls else ls_elements ls ++ loc ∷ []))
unfolding ls_add_loc
ls_add_loc-IsValid ls loc v n = elim (Bool-cases (has loc (ls_elements ls))) [
  | inl here ↦ (
    ls,
    rw (find_node-found ls.pool v.sound loc, ls_add_loc)
        (ground (arith, found-has ls.pool v.sound loc n)),
    v,
    ground arith,
  )
  | inr out ↦
      let (valid, grows) = insert_loc-IsValid ls loc v n out in
      (
        insert_loc ls loc,
        rw (find_node-found ls.pool v.sound loc, ls_add_loc)
            (ground (arith, found-has ls.pool v.sound loc n)),
        valid,
        rw (out, grows) refl,
      )
]

-- Enumeration of a valid set calls the scanner once on each element, in order; the elements that it accepts stay,
-- the others go, and the set stays valid.
pub ls_enumerate_locs-IsValid :
    {S : Type 0} (scanner : ℕ → S → Bool × S) (ls : Locset) (s : S)
    → IsValid ls
    → IsValid (ls_enumerate_locs scanner ls s).0
      × (ls_elements (ls_enumerate_locs scanner ls s).0 ≡ (sift scanner (ls_elements ls) s).0)
      × ((ls_enumerate_locs scanner ls s).1 ≡ (sift scanner (ls_elements ls) s).1)
unfolding ls_enumerate_locs elements
ls_enumerate_locs-IsValid scanner ls s v =
    let t = scan_pool-Sifts scanner ls.pool s v.sound.distinct in
    (
      record {
        sound = Thins-IsSound ls.pool _ v.sound t.thins;
        live = omega (arith, t.removes, v.live);
      },
      t.keeps,
      t.state,
    )
