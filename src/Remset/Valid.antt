-- ===== src/Remset/Valid.antt =====
-- What a remembered set stands for, and its invariant.
use larceny.Base.{ℕ, ◌≡◌, refl, ◌≢◌, ◌<◌, List, [], some, false, arith, has, length, IsDistinct}
use larceny.Pool.Contents.{elements, contents-IsDistinct}
use larceny.Pool.Sound.{IsSound, find_node-found, found-has}
use larceny.Pool.Clear.{create_pool-IsSound, clear_pool-IsSound, slots-clear_pool, elements-empty}
use larceny.Remset.Log2.{IsTableSize, table_size_ok}
use larceny.Remset.{
  Remset, create_remset, rs_clear, rs_isremembered, or_default, default_remset_poolsize, new_remset,
}

-- The words in the set, in the order in which they were recorded.
abbrev pub rs_elements : Remset → List ℕ
rs_elements rs = elements rs.pool

-- The pool is sound and `live` counts the elements.
pub record IsValid (rs : Remset) : Type 0 where
  pub sound : IsSound rs.pool
  pub live : rs.live ≡ length (rs_elements rs)

pub elements-IsDistinct : (rs : Remset) → IsValid rs → IsDistinct (rs_elements rs)
unfolding elements
elements-IsDistinct rs v = contents-IsDistinct rs.pool.mem _ v.sound.distinct v.sound.single

pub clear-IsValid : (rs : Remset) → IsSound rs.pool → IsValid (rs_clear rs)
unfolding rs_clear
clear-IsValid rs s = record {
  sound = clear_pool-IsSound rs.pool s;
  live = rw (elements-empty (rs_clear rs).pool (slots-clear_pool rs.pool)) refl;
}

pub clear-elements : (rs : Remset) → rs_elements (rs_clear rs) ≡ []
unfolding rs_clear
clear-elements rs = elements-empty (rs_clear rs).pool (slots-clear_pool rs.pool)

-- Clearing a valid set leaves a valid set without elements that has not overflowed.
pub rs_clear-IsValid :
    (rs : Remset)
    → IsValid rs
    → IsValid (rs_clear rs)
      × (rs_elements (rs_clear rs) ≡ [])
      × ((rs_clear rs).has_overflowed ≡ false)
rs_clear-IsValid rs v = (clear-IsValid rs v.sound, clear-elements rs, clear_flag rs)
  where
    clear_flag : (r : Remset) → (rs_clear r).has_overflowed ≡ false
    clear_flag r = unfold rs_clear in refl

-- Creating a set ends for a table size of 0 or a power of two, and the set is valid and empty.
pub create_remset-IsValid :
    (tbl_entries pool_entries : ℕ)
    → IsTableSize tbl_entries
    → (rs : Remset) × (create_remset tbl_entries pool_entries ≡ some rs)
      × IsValid rs
      × (rs_elements rs ≡ [])
unfolding create_remset
create_remset-IsValid t n h =
    let some_entries : 0 < or_default n default_remset_poolsize = ground arith in
    (
      rs_clear (new_remset t n),
      rw (table_size_ok t h) refl,
      clear-IsValid (new_remset t n) (create_pool-IsSound _ _ some_entries),
      clear-elements (new_remset t n),
    )

-- In a valid set the membership test ends, and it answers whether a word that is not 0 is among
-- the elements.
pub rs_isremembered-elements :
    (rs : Remset) (w : ℕ)
    → IsValid rs
    → w ≢ 0
    → rs_isremembered rs w ≡ some (has w (rs_elements rs))
unfolding rs_isremembered
rs_isremembered-elements rs w v n =
    rw (find_node-found rs.pool v.sound w, rs_isremembered)
      (ground (arith, found-has rs.pool v.sound w n))
