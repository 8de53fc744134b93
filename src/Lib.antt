-- ===== src/Lib.antt =====
-- Models of the C run-time system of Larceny: the sets that the generational and regional
-- collectors keep, and the arithmetic that the millicode of Petit Larceny calls.
--
-- A write barrier logs stores in a buffer. When the buffer is emptied, add_elems of the array of
-- remembered sets sends each logged object to the set of its generation; a collection enumerates
-- these sets for the generations outside the collected set of generations, and its scanner says
-- which objects stay remembered. Location sets are the same structure over slots. Both are hash
-- tables whose nodes lie in pool segments. Extensible bitmaps are another representation of such sets,
-- trees whose leaves are bitmaps.
--
--   Base             shared names and lemmas: tests and conditionals, lists, arrays, integers
--   Gset             src/Rts/Sys/gset_t.h: sets of generations, by tag
--   Pool             the node pool of src/Rts/Sys/remset.c and src/Rts/Sys/locset.c: memory, hash
--                    table, segments, and its operations; the children carry the invariant IsSound
--                    (Sound), the search (Walk), the words held (Contents), and the effect of each
--                    operation on both (Grow, Insert, Add, Clear, Erase, Scan)
--   Remset           src/Rts/Sys/remset.c over Pool: rs_add_elem, rs_del_elem, rs_isremembered,
--                    rs_enumerate, rs_add_elems_funnel, rs_add_elems_distribute and so on
--   Locset           src/Rts/Sys/locset.c over Pool: ls_add_loc, ls_enumerate_locs and so on
--   UremsetArray     src/Rts/Sys/uremset_array.c: minor and major sets of every generation; entry 0 of its
--                    arrays is a poisoned pointer, and an operation that follows it gives `none`
--   Summary          src/Rts/Sys/summary.c and rs_init_summary of src/Rts/Sys/remset.c: the words of a
--                    set, read chunk by chunk
--   Bits             the bits of a word of 32 bits: test, set and clear, for the bitmaps
--   Extbmp           src/Rts/Sys/extbmp.c: extensible bitmaps, their creation and their data; the code is
--                    in Lists (the lists of leaves by generation, free_leaf, counts), Find (the search
--                    with its cache), Ops (add, delete, test), Enumerate (tnode_enumerate) and Requests
--                    (the exported enumerations). Of the other children Index, Shape, Grow, Alloc,
--                    Search and Change are about the tree, Linked, Relist and Free about the lists, Valid
--                    states the invariant and the set, Effect, Member, Create and Session treat the
--                    calls, and Elements, Words, Window, Tree, Range, Visited, Children, Whole, All and
--                    Listed the enumeration
--   Multiply         src/Rts/Shared/multiply.c: products of 32-bit words
--   RegionGroup      src/Rts/Sys/region_group.c: unlink_group, link_group_push, link_group_enq and the
--                    exported moves; the children carry the lists in memory (Linked), the parts of a
--                    move (Unlink, Insert, Enter), its counts (Moves) and the exported operations (Table)
--   Tests            runs on small inputs, and each result below applied to one
--
-- Functions keep the names of the C code. State is passed explicitly: an operation takes the record
-- of its structure and returns the new one, with `none` for a failed `assert`. Memory is a function
-- from addresses. gclib_alloc_rts gives a block that overlaps no earlier one and does not fail: the
-- code asks again until it succeeds.
--
-- Bounds and fuel. Words of multiply.c are below 2^32 and wrap around as written out there; counters
-- of the sets are natural numbers. The walk along a hash chain runs on one more step than there are
-- nodes in the segments in use; a chain of a sound pool has no more nodes than that, so the fuel is
-- never used up. The loop of ilog2 runs on one more step than its argument, which it halves.
-- The heaps have addresses below `limit`: the walk to the last heap of a group runs on `limit` steps
-- and the loop of region_group_enq_all on one more, and no list without repetition is longer.
-- The enumeration of a summary runs on one more step than there are nodes in use.
--
-- In an extensible bitmap the depth of a tree is an index of its type, in place of tags; leaves lie in
-- a memory and have addresses, 0 for NULL; generation -2 of a leaf is `none`. Addresses are words below
-- 2^32 and wrap around as written out. The loop that finds the depth of the tree runs on as many rounds
-- as there are leaves, and the walk along a list of leaves on as many as were allocated.
--
-- A scanner is a function of the word and its own data; it does not touch the set it is called on.
-- The collector's number of generations, which a scanner may change, is read from the scanner's data.
-- The page table (`gen_of`), the headers of objects and the ranges of addresses of a generation are
-- parameters. Not modelled: recycling of pool segments, which nothing calls; printing and profiling;
-- the slow enumeration of extensible bitmaps, which is for debugging, and uremset_extbmp.c; composed
-- and location summaries; statistics records as such; and the parts of the run-time system outside
-- the files above.
pub mod Base
pub mod Bits
pub mod Extbmp
pub mod Gset
pub mod Locset
pub mod Multiply
pub mod Pool
pub mod RegionGroup
pub mod Remset
pub mod Summary
pub mod Tests
pub mod UremsetArray
