-- ===== src/Tests/Locsets.antt =====
-- Location sets with a table of four buckets and segments of one node.
use larceny.Base.{
  ℕ, ◌+◌, ◌≡◌, refl, ◌∷◌, [], List, ◌++◌, some, Bool, false, ◌||◌, arith, has, ltb, if◌then◌else◌,
}
use larceny.Pool.Clear.{create_pool-IsSound}
use larceny.Pool.Scan.{sift}
use larceny.Locset.{
  Locset, new_locset, ls_clear, insert_loc, ls_add_loc, ls_enumerate_locs, make_loc,
  ls_copy_all_from, ls_add_elems_funnel,
}
use larceny.Locset.Valid.{
  IsValid, ls_elements, insert_loc-IsValid, ls_clear-IsValid, ls_add_loc-IsValid,
  ls_enumerate_locs-IsValid,
}
use larceny.Locset.Batch.{words_of, locs_of, IsLog, ls_copy_all_from-has, ls_add_elems_funnel-has}

abbrev no_locs : Locset
no_locs = ls_clear (new_locset 4 1)

no_locs-IsValid : IsValid no_locs
no_locs-IsValid = (ls_clear-IsValid (new_locset 4 1) (create_pool-IsSound 4 1 (omega arith))).0

-- the objects at 16 and 32 with tag 1, and the offsets of their slots
abbrev log : List (ℕ × ℕ)
log = (17, 4) ∷ (33, 8) ∷ (17, 4) ∷ []

log-IsLog : IsLog log
unfolding make_loc
log-IsLog =
    (refl, refl, (omega arith), (refl, refl, (omega arith), (refl, refl, (omega arith), tt)))

-- the scanner that counts its calls and accepts the slots below 32
abbrev low_slots : ℕ → ℕ → Bool × ℕ
low_slots loc n = (ltb loc 32, n + 1)

lacks_20 : has 20 (ls_elements no_locs) ≡ false
lacks_20 = rw (ls_clear-IsValid (new_locset 4 1) (create_pool-IsSound 4 1 (omega arith))).1 refl

abbrev filled : Locset
filled = insert_loc no_locs 20

filled-IsValid : IsValid filled
filled-IsValid = (insert_loc-IsValid no_locs 20 no_locs-IsValid (omega arith) lacks_20).0

ls_add_loc-IsValid_example :
    (r : Locset) × (ls_add_loc filled 40 ≡ some r)
    × IsValid r
    × (ls_elements r ≡ (
        if has 40 (ls_elements filled) then ls_elements filled else ls_elements filled ++ 40 ∷ []))
ls_add_loc-IsValid_example = ls_add_loc-IsValid filled 40 filled-IsValid (omega arith)

ls_enumerate_locs-IsValid_example :
    IsValid (ls_enumerate_locs low_slots filled 0).0
    × (ls_elements (ls_enumerate_locs low_slots filled 0).0
        ≡ (sift low_slots (ls_elements filled) 0).0)
    × ((ls_enumerate_locs low_slots filled 0).1 ≡ (sift low_slots (ls_elements filled) 0).1)
ls_enumerate_locs-IsValid_example = ls_enumerate_locs-IsValid low_slots filled 0 filled-IsValid

ls_copy_all_from-has_example :
    IsValid (ls_copy_all_from no_locs filled).0
    × (ls_elements (ls_copy_all_from no_locs filled).0 ≡ ls_elements filled)
    × (r : Locset) × ((ls_copy_all_from no_locs filled).1 ≡ some r)
    × IsValid r
    × ((x : ℕ)
        → has x (ls_elements r) ≡ (has x (ls_elements no_locs) || has x (ls_elements filled)))
ls_copy_all_from-has_example = ls_copy_all_from-has no_locs filled no_locs-IsValid filled-IsValid

ls_add_elems_funnel-has_example :
    (r : Locset) × (ls_add_elems_funnel no_locs (words_of log) ≡ some r)
    × IsValid r
    × ((x : ℕ) → has x (ls_elements r) ≡ (has x (ls_elements no_locs) || has x (locs_of log)))
ls_add_elems_funnel-has_example = ls_add_elems_funnel-has log no_locs no_locs-IsValid log-IsLog
