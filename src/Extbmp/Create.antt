-- ===== src/Extbmp/Create.antt =====
-- The bitmap that the constructor makes with its default sizes is valid and empty.
use larceny.Base.{ℕ, ◌*◌, ◌≡◌, refl, inl, false, none, some, arith}
use larceny.Extbmp.{
  Extbmp, null_leaf, levels, alloc_inode, create_extensible_bitmap_params, create_extensible_bitmap,
}
use larceny.Extbmp.Shape.{look}
use larceny.Extbmp.Valid.{IsValid, contains}
use larceny.Extbmp.Grow.{in_tree}

-- 46 * 46 leaves of 2 MB cover the address space in two levels
abbrev pub empty_bitmap : ℕ → Extbmp
empty_bitmap gno_count = record {
  leaf_words = 8192;
  entries_per_inode = 46;
  depth = 2;
  tree = record {
    start = 0;
    limit = 0;
    address_range_in_words = 64 * 8192 * 46 * 46;
    address_words_per_child = 64 * 8192 * 46;
    nodes = λ _. none;
  };
  leaves = record { at = λ _. null_leaf; brk = 1; leaf_count = 0 };
  mru_leaf = 0;
  mru_first = 0;
  gno_to_leaf = λ _. 0;
  gno_count = gno_count;
}

-- Creating a bitmap with the default sizes fails no assertion and gives a valid bitmap of two levels
-- that contains no address.
pub create_extensible_bitmap_lem :
    (gno_count : ℕ)
    → (create_extensible_bitmap gno_count ≡ some (empty_bitmap gno_count))
      × IsValid (empty_bitmap gno_count)
      × ((x : ℕ) → contains (empty_bitmap gno_count) x ≡ false)
unfolding create_extensible_bitmap create_extensible_bitmap_params levels alloc_inode contains
    in_tree look
create_extensible_bitmap_lem gno_count = (
  refl,
  record {
    some_words = omega arith;
    some_entries = omega arith;
    covers = omega arith;
    brk_pos = omega arith;
    shaped = (refl, refl, λ i bound child e. absurd (ground arith));
    cache = inl refl;
    blank = λ leaf above. record { no_gno = refl; no_prev = refl; no_next = refl };
    linked = record {
      null = (refl, refl);
      back = λ a n. absurd (n refl);
      forth = λ a n. absurd (n refl);
      first = λ a n. refl;
      owned = λ a n. absurd (n refl);
      along = λ a n. refl;
      loose = λ a n. (refl, refl);
    };
  },
  λ x. refl,
)
