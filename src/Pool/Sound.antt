-- ===== src/Pool/Sound.antt =====
-- The invariant of a pool, and what a walk finds in a pool that has it.
use larceny.Base.{
  ℕ, suc, ◌≤◌, ◌<◌, ◌≡◌, ◌≢◌, inl, inr, true, false, not, some, List, [], arith, length, has,
  AllBelow, IsDistinct, ◌==◌, Bool-cases,
}
use larceny.Pool.{Pool, Segment, slots, bucket, find_node, first_of_segments}
use larceny.Pool.Walk.{Chain, first_with, walk-first_with, first_with_found, first_with_absent}
use larceny.Pool.Contents.{contents, elements, has-contents_of, contents_witness}

-- a segment's memory lies between NULL and the memory not yet given out
abbrev pub IsBlock : ℕ → Segment → Type 0
IsBlock brk s = (0 < s.bot) × (s.bot ≤ s.lim) × (s.lim ≤ brk)

-- `chains h` lists the nodes of bucket `h`. Every node in use that still holds a word is in the
-- chain of that word, no two hold the same word, and the current segment lies above all others.
pub record IsSound (d : Pool) : Type 0 where
  pub chains : ℕ → List ℕ
  pub linked : (h : ℕ) → Chain d.mem (d.tbl h) (chains h)
  pub within : (h a : ℕ) → has a (chains h) ≡ true → has a (slots d) ≡ true
  pub placed :
      (a : ℕ)
      → has a (slots d) ≡ true
      → (d.mem a).object ≢ 0
      → has a (chains (bucket d (d.mem a).object)) ≡ true
  pub single :
      (a b : ℕ)
      → has a (slots d) ≡ true
      → has b (slots d) ≡ true
      → (d.mem a).object ≢ 0
      → (d.mem a).object ≡ (d.mem b).object
      → a ≡ b
  pub short : (h : ℕ) → length (chains h) ≤ length (slots d)
  pub lower : AllBelow d.curr.top (slots d)
  pub distinct : IsDistinct (slots d)
  pub start : 0 < d.curr.bot
  pub filled : d.curr.bot ≤ d.curr.top
  pub bounded : d.curr.top ≤ d.curr.lim
  pub fresh : d.curr.lim ≤ d.brk
  pub last : d.after ≡ []
  pub sized : 0 < d.pool_entries
  pub first : IsBlock d.brk (first_of_segments d.before d.curr)

-- the node that a walk for `w` ends at
pub found : {d : Pool} → IsSound d → ℕ → ℕ
found {d} s w = first_with d.mem w (s.chains (bucket d w))

module _ (d : Pool) (s : IsSound d) (w : ℕ) where
  pub find_node-found : find_node d w ≡ some (found s w)
  unfolding find_node found
  find_node-found =
      walk-first_with (suc (length (slots d))) d.mem (d.tbl (bucket d w)) w (s.chains (bucket d w))
        (omega (arith, s.short (bucket d w))) (s.linked (bucket d w))

  element_of :
      (a : ℕ)
      → has a (slots d) ≡ true
      → (d.mem a).object ≢ 0
      → has (d.mem a).object (elements d) ≡ true
  unfolding elements
  element_of a m n = has-contents_of d.mem (slots d) a m n

  pub found_yes :
      found s w ≢ 0 → (has (found s w) (slots d) ≡ true) × ((d.mem (found s w)).object ≡ w)
  unfolding found
  found_yes h =
      let f =
        first_with_found d.mem (d.tbl (bucket d w)) w (s.chains (bucket d w))
          (s.linked (bucket d w)) h in
      (s.within (bucket d w) _ f.0, f.1)

  pub found_no : w ≢ 0 → found s w ≡ 0 → has w (elements d) ≡ false
  unfolding found elements
  found_no n e = elim (Bool-cases (has w (contents d.mem (slots d)))) [
    | inr h ↦ h
    | inl h ↦
        let (a, m, o, p) = contents_witness d.mem (slots d) w h in
        absurd (
          first_with_absent d.mem (d.tbl (bucket d w)) w (s.chains (bucket d w)) a
            (s.linked (bucket d w)) e (rw o at (s.placed a m (rw o n))) o)
  ]

  -- A walk ends at a node exactly if the word is an element.
  pub found-has : w ≢ 0 → (found s w == 0) ≡ not (has w (elements d))
  found-has n = elim (Bool-cases (found s w == 0)) [
    | inl e ↦ ground (arith, found_no n (ground arith))
    | inr e ↦
        let f = found_yes (ground arith) in
        ground (arith, element_of (found s w) f.0 (ground arith))
  ]
