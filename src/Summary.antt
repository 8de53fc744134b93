-- ===== src/Summary.antt =====
-- Summaries: src/Rts/Sys/summary.c with the chunk iterator of src/Rts/Sys/remset.c. A summary of a
-- remembered set reads the nodes of its pool one by one. A result `none` of an enumeration is a loop
-- that does not end on its fuel.
pub mod Visits
use mathlib.Core.List.{foldl}
use larceny.Base.{
  ℕ, zero, suc, ◌+◌, Bool, true, false, Option, none, some, List, [], ◌∷◌, ◌++◌, length, ltb, ◌==◌,
  if◌then◌else◌,
}
use larceny.Pool.{Memory, Segment, slots}
use larceny.Remset.{Remset}

-- The cursors of a summary of a remembered set: the node to read, the end of its segment, and the
-- segments to come. `entries` is what summary_init records.
pub record Cursor : Type 0 where
  pub entries : ℕ
  pub cursor1 : ℕ
  pub cursor2 : ℕ
  pub cursor3 : List Segment

-- The loop over segments up to one that is not empty; `p` and `q` stay where there is none.
unfoldable pub seek : ℕ → ℕ → ℕ → List Segment → Cursor
seek entries p q [] = record { entries = entries; cursor1 = p; cursor2 = q; cursor3 = [] }
seek entries p q (s ∷ ss) =
    let rest = seek entries p q ss in
    if ltb s.bot s.top
    then record { entries = entries; cursor1 = s.bot; cursor2 = s.top; cursor3 = ss }
    else rest

-- The address of the node whose word is the chunk, and the summary afterwards; `none` at the end.
unfoldable pub rs_pool_next_chunk : Cursor → Option (ℕ × Cursor)
unfolding seek
rs_pool_next_chunk c =
    let p = c.cursor1 + 1 in
    if ltb c.cursor1 c.cursor2
    then some (
      c.cursor1,
      if ltb p c.cursor2 then record c { cursor1 = p } else seek c.entries p c.cursor2 c.cursor3,
    )
    else none

-- The same loop in rs_init_summary, which assigns `p` and `q` for every segment.
unfoldable pub seek_first : ℕ → ℕ → ℕ → List Segment → Cursor
seek_first entries p q [] = record { entries = entries; cursor1 = p; cursor2 = q; cursor3 = [] }
seek_first entries p q (s ∷ ss) =
    let rest = seek_first entries s.bot s.top ss in
    if ltb s.bot s.top
    then record { entries = entries; cursor1 = s.bot; cursor2 = s.top; cursor3 = ss }
    else rest

unfoldable pub rs_init_summary : Remset → Cursor
unfolding seek_first
rs_init_summary rs = seek_first rs.live 0 0 (rs.pool.before ++ rs.pool.curr ∷ rs.pool.after)

module _ {S : Type 0} (filter : Option (ℕ → Bool)) (scanner : ℕ → S → S) where
  -- the body of the loop over one chunk, here a single word
  unfoldable pub visit_word : ℕ → S → S
  visit_word w s =
      if w == 0
      then s
      else elim filter [ none ↦ scanner w s | some f ↦ if f w then scanner w s else s ]

  unfoldable pub summary_enumerate_dispatch : ℕ → Memory → Cursor → S → Option S
  unfolding visit_word
  summary_enumerate_dispatch zero mem c s = none
  summary_enumerate_dispatch (suc fuel) mem c s = elim (rs_pool_next_chunk c) [
    | none ↦ some s
    | some (p, c') ↦ summary_enumerate_dispatch fuel mem c' (visit_word (mem p).object s)
  ]

  -- summary_enumerate of the summary of a set
  unfoldable pub enumerate_remset : Remset → S → Option S
  enumerate_remset rs s =
      summary_enumerate_dispatch (suc (length (slots rs.pool))) rs.pool.mem (rs_init_summary rs) s
