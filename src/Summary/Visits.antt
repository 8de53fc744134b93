-- ===== src/Summary/Visits.antt =====
-- Enumerating the summary of a remembered set visits its elements.
use larceny.Base.{
  ℕ, zero, suc, ◌+◌, ◌-◌, ◌≤◌, ◌<◌, ◌≡◌, refl, sym, ap, ◌∙◌, ◌⊎◌, inl, inr, Bool, true, false,
  Option, none, some, List, [], ◌∷◌, ◌++◌, arith, length, span, ltb, ◌==◌, Bool-cases, Option-cases,
  if◌then◌else◌,
}
use larceny.Pool.{Memory, Segment, slots, nodes_in}
use larceny.Pool.Contents.{contents, elements}
use larceny.Pool.Grow.{nodes_in-append}
use larceny.Remset.{Remset}
use larceny.Remset.Valid.{IsValid, rs_elements}
use larceny.Summary.{
  Cursor, seek, rs_pool_next_chunk, rs_init_summary, visit_word, summary_enumerate_dispatch,
  enumerate_remset, seek_first,
}

-- the nodes that a summary has still to read
abbrev to_read : Cursor → List ℕ
to_read c = span c.cursor1 (c.cursor2 - c.cursor1) ++ nodes_in c.cursor3

seek-to_read :
    (entries p q : ℕ) (ss : List Segment) → q ≤ p → to_read (seek entries p q ss) ≡ nodes_in ss
unfolding seek span
seek-to_read entries p q [] h = ground arith
seek-to_read entries p q (s ∷ ss) h = elim (Bool-cases (ltb s.bot s.top)) [
  | inl e ↦ rw e refl
  | inr e ↦
      let empty : s.top - s.bot ≡ 0 = ground arith in rw (e, empty) (seek-to_read entries p q ss h)
]

seek_first-to_read :
    (entries p q : ℕ) (ss : List Segment)
    → q ≤ p
    → to_read (seek_first entries p q ss) ≡ nodes_in ss
unfolding seek_first span
seek_first-to_read entries p q [] h = ground arith
seek_first-to_read entries p q (s ∷ ss) h = elim (Bool-cases (ltb s.bot s.top)) [
  | inl e ↦ rw e refl
  | inr e ↦
      let empty : s.top - s.bot ≡ 0 = ground arith in
      rw (e, empty) (seek_first-to_read entries s.bot s.top ss (ground arith))
]

-- a chunk is the first of these nodes, and the others are left
next_chunk-to_read :
    (c : Cursor)
    → ltb c.cursor1 c.cursor2 ≡ true
    → (c' : Cursor) × (rs_pool_next_chunk c ≡ some (c.cursor1, c'))
      × (to_read c ≡ c.cursor1 ∷ to_read c')
unfolding rs_pool_next_chunk span
next_chunk-to_read c h = elim (Bool-cases (ltb (c.cursor1 + 1) c.cursor2)) [
  | inl more ↦
      let count : c.cursor2 - c.cursor1 ≡ suc (c.cursor2 - (c.cursor1 + 1)) = ground arith in
      (record c { cursor1 = c.cursor1 + 1 }, rw (h, more) refl, rw count refl)
  | inr last ↦
      let count : c.cursor2 - c.cursor1 ≡ 1 = ground arith in
      (
        seek c.entries (c.cursor1 + 1) c.cursor2 c.cursor3,
        rw (h, last) refl,
        rw count (
            ap (λ l. c.cursor1 ∷ l)
              (sym (seek-to_read c.entries (c.cursor1 + 1) c.cursor2 c.cursor3 (ground arith)))),
      )
]

-- a summary whose current segment is used up has no node left in the others
abbrev Ready : Cursor → Type 0
Ready c = (ltb c.cursor1 c.cursor2 ≡ true) ⊎ ((c.cursor2 ≤ c.cursor1) × (nodes_in c.cursor3 ≡ []))

seek-Ready : (entries p q : ℕ) (ss : List Segment) → q ≤ p → Ready (seek entries p q ss)
unfolding seek
seek-Ready entries p q [] h = inr (h, refl)
seek-Ready entries p q (s ∷ ss) h = elim (Bool-cases (ltb s.bot s.top)) [
  | inl e ↦ rw e (inl e)
  | inr e ↦ rw e (seek-Ready entries p q ss h)
]

seek_first-Ready : (entries p q : ℕ) (ss : List Segment) → q ≤ p → Ready (seek_first entries p q ss)
unfolding seek_first
seek_first-Ready entries p q [] h = inr (h, refl)
seek_first-Ready entries p q (s ∷ ss) h = elim (Bool-cases (ltb s.bot s.top)) [
  | inl e ↦ rw e (inl e)
  | inr e ↦ rw e (seek_first-Ready entries s.bot s.top ss (ground arith))
]

next_chunk-Ready :
    (c : Cursor) (r : ℕ × Cursor)
    → ltb c.cursor1 c.cursor2 ≡ true
    → rs_pool_next_chunk c ≡ some r
    → Ready r.1
unfolding rs_pool_next_chunk
next_chunk-Ready c r h e = elim (Bool-cases (ltb (c.cursor1 + 1) c.cursor2)) [
  | inl more ↦
      let same : r ≡ (c.cursor1, record c { cursor1 = c.cursor1 + 1 }) = ground arith in
      rw same (inl more)
  | inr last ↦
      let same : r ≡ (c.cursor1, seek c.entries (c.cursor1 + 1) c.cursor2 c.cursor3) =
        ground arith in
      rw same (seek-Ready c.entries (c.cursor1 + 1) c.cursor2 c.cursor3 (ground arith))
]

next_chunk-end : (c : Cursor) → ltb c.cursor1 c.cursor2 ≡ false → rs_pool_next_chunk c ≡ none
unfolding rs_pool_next_chunk
next_chunk-end c h = rw h refl

Ready-end : (c : Cursor) → Ready c → ltb c.cursor1 c.cursor2 ≡ false → to_read c ≡ []
unfolding span
Ready-end c (inl h) e = absurd (ground arith)
Ready-end c (inr (l, n)) e =
    let empty : c.cursor2 - c.cursor1 ≡ 0 = omega arith in rw (empty, n) refl

seek_first-entries :
    (entries p q : ℕ) (ss : List Segment) → (seek_first entries p q ss).entries ≡ entries
unfolding seek_first
seek_first-entries entries p q [] = refl
seek_first-entries entries p q (s ∷ ss) = ground (arith, seek_first-entries entries s.bot s.top ss)

init-to_read : (rs : Remset) → IsValid rs → to_read (rs_init_summary rs) ≡ slots rs.pool
unfolding rs_init_summary
init-to_read rs v =
    seek_first-to_read rs.live 0 0 (rs.pool.before ++ rs.pool.curr ∷ rs.pool.after) (omega arith)
    ∙ ap (λ l. nodes_in (rs.pool.before ++ rs.pool.curr ∷ l)) v.sound.last
    ∙ nodes_in-append rs.pool.before rs.pool.curr

init-Ready : (rs : Remset) → Ready (rs_init_summary rs)
unfolding rs_init_summary
init-Ready rs =
    seek_first-Ready rs.live 0 0 (rs.pool.before ++ rs.pool.curr ∷ rs.pool.after) (omega arith)

init-entries : (rs : Remset) → (rs_init_summary rs).entries ≡ rs.live
unfolding rs_init_summary
init-entries rs = seek_first-entries rs.live 0 0 (rs.pool.before ++ rs.pool.curr ∷ rs.pool.after)

-- the calls of a scanner on the words of a list, in order
abbrev pub call_all : {S : Type 0} → (ℕ → S → S) → List ℕ → S → S
call_all scanner [] s = s
call_all scanner (w ∷ ws) s = call_all scanner ws (scanner w s)

-- the words that a filter lets through, all of them where there is none
abbrev pub let_through : Option (ℕ → Bool) → List ℕ → List ℕ
let_through none ws = ws
let_through (some f) [] = []
let_through (some f) (w ∷ ws) = let rest = let_through (some f) ws in if f w then w ∷ rest else rest

module _ {S : Type 0} (filter : Option (ℕ → Bool)) (scanner : ℕ → S → S) where
  abbrev visit_all : List ℕ → S → S
  visit_all ws s = call_all scanner (let_through filter ws) s

  visit_word-null : (w : ℕ) (s : S) → w ≡ 0 → visit_word filter scanner w s ≡ s
  unfolding visit_word
  visit_word-null w s e = rw e refl

  -- what the visit of a word does to the calls that are to come
  visit_word-visit_all :
      (w : ℕ) (ws : List ℕ) (s : S)
      → (w == 0) ≡ false
      → visit_all (w ∷ ws) s ≡ visit_all ws (visit_word filter scanner w s)
  unfolding visit_word
  visit_word-visit_all w ws s e = elim (Option-cases filter) [
    | inl all ↦ rw (all, e) refl
    | inr (f, some_filter) ↦ elim (Bool-cases (f w)) [
      | inl through ↦ rw (some_filter, e, through) refl
      | inr out ↦ rw (some_filter, e, out) refl
    ]
  ]

  visit_all-nil : (mem : Memory) (s : S) → visit_all (contents mem []) s ≡ s
  unfolding contents
  visit_all-nil mem s = elim (Option-cases filter) [
    | inl all ↦ rw all refl
    | inr (f, some_filter) ↦ rw some_filter refl
  ]

  -- a removed node is passed over
  visit_all-contents :
      (mem : Memory) (p : ℕ) (ns : List ℕ) (s : S)
      → visit_all (contents mem (p ∷ ns)) s
        ≡ visit_all (contents mem ns) (visit_word filter scanner (mem p).object s)
  unfolding contents
  visit_all-contents mem p ns s = elim (Bool-cases ((mem p).object == 0)) [
    | inl e ↦
        rw e
          (ap (visit_all (contents mem ns)) (sym (visit_word-null (mem p).object s (ground arith))))
    | inr e ↦ rw e (visit_word-visit_all (mem p).object (contents mem ns) s e)
  ]

  dispatch-visits :
      (fuel : ℕ) (ns : List ℕ) (mem : Memory) (c : Cursor) (s : S)
      → length ns < fuel
      → Ready c
      → to_read c ≡ ns
      → summary_enumerate_dispatch filter scanner fuel mem c s
        ≡ some (visit_all (contents mem ns) s)
  unfolding summary_enumerate_dispatch
  dispatch-visits zero ns mem c s f r e = absurd (omega arith)
  dispatch-visits (suc fuel) ns mem c s f r e = elim (Bool-cases (ltb c.cursor1 c.cursor2)) [
    | inr h ↦
        let none_left : ns ≡ [] = sym e ∙ Ready-end c r h in
        rw (none_left, next_chunk-end c h, summary_enumerate_dispatch)
          (ap some (sym (visit_all-nil mem s)))
    | inl h ↦
        let (c', step, split) = next_chunk-to_read c h in
        let shape : ns ≡ c.cursor1 ∷ to_read c' = sym e ∙ split in
        let fits : length (to_read c') < fuel = omega (arith, f, ap length shape) in
        rw (shape, step, summary_enumerate_dispatch)
          (dispatch-visits fuel (to_read c') mem c'
              (visit_word filter scanner (mem c.cursor1).object s) fits
              (next_chunk-Ready c (c.cursor1, c') h step) refl
            ∙ ap some (sym (visit_all-contents mem c.cursor1 (to_read c') s)))
  ]

  -- The summary of a valid set records how many elements the set has. Enumerating it ends, and has
  -- called the scanner once on each of those elements that the filter accepts, on all of them without
  -- a filter, in the order in which they were recorded, and on nothing else.
  pub enumerate_remset-visits :
      (rs : Remset) (s : S)
      → IsValid rs
      → ((rs_init_summary rs).entries ≡ length (rs_elements rs))
        × (enumerate_remset filter scanner rs s
            ≡ some (call_all scanner (let_through filter (rs_elements rs)) s))
  unfolding enumerate_remset elements
  enumerate_remset-visits rs s v = (
    init-entries rs ∙ v.live,
    dispatch-visits (suc (length (slots rs.pool))) (slots rs.pool) rs.pool.mem (rs_init_summary rs)
        s (omega arith) (init-Ready rs) (init-to_read rs v),
  )
