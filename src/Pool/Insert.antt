-- ===== src/Pool/Insert.antt =====
-- The insertion of a new word keeps the invariant and appends the word to the elements.
use native.Mathlib.Numerals.{add-one}
use mathlib.Core.List.{append_assoc}
use larceny.Base.{
  ℕ, suc, ◌+◌, ◌-◌, ◌≤◌, ◌<◌, ◌≡◌, refl, sym, ap, ◌∙◌, ◌≢◌, inl, inr, true, false, ◌||◌, List, [],
  ◌∷◌, ◌++◌, arith, has, update, ◌==◌, Bool-cases, AllBelow-concat, IsDistinct-concat, has-append,
  has-AllBelow, length-append, span-suc, update_self,
}
use larceny.Pool.{Pool, Segment, slots, bucket, nodes_of, nodes_in, push_node, first_of_segments}
use larceny.Pool.Walk.{Chain, Chain-frame}
use larceny.Pool.Contents.{contents, elements, contents-append, contents-frame}
use larceny.Pool.Contents.{has-contents_of}
use larceny.Pool.Sound.{IsSound, IsBlock}

slots-push_node :
    (d : Pool) (w : ℕ)
    → d.curr.bot ≤ d.curr.top
    → slots (push_node d w) ≡ slots d ++ d.curr.top ∷ []
unfolding push_node
slots-push_node d w h =
    let one_more : d.curr.top + 1 - d.curr.bot ≡ suc (d.curr.top - d.curr.bot) = omega arith in
    let end : d.curr.bot + (d.curr.top - d.curr.bot) ≡ d.curr.top = omega arith in
    rw (one_more, span-suc, end)
      (sym (append_assoc (nodes_in d.before) (nodes_of d.curr) (d.curr.top ∷ [])))

-- A new `top` leaves the block as it is.
first-retop :
    (ss : List Segment) (s : Segment) (t brk : ℕ)
    → IsBlock brk (first_of_segments ss s)
    → IsBlock brk (first_of_segments ss (record { bot = s.bot; top = t; lim = s.lim }))
first-retop [] s t brk b = b
first-retop (u ∷ ss) s t brk b = b

-- The chains after a push: the new node heads the chain of its bucket.
abbrev pushed_chains : Pool → ℕ → (ℕ → List ℕ) → ℕ → List ℕ
pushed_chains d w chains = update chains (bucket d w) (d.curr.top ∷ chains (bucket d w))

module _ (d : Pool) (s : IsSound d) (w : ℕ) (nonzero : w ≢ 0) where
  top_unused : has d.curr.top (slots d) ≡ false
  top_unused = elim (Bool-cases (has d.curr.top (slots d))) [
    | inr h ↦ h
    | inl h ↦ absurd (omega (arith, has-AllBelow d.curr.top d.curr.top (slots d) s.lower h))
  ]

  has-pushed : (a : ℕ) → has a (slots (push_node d w)) ≡ (has a (slots d) || (a == d.curr.top))
  has-pushed a =
      rw (slots-push_node d w s.filled) (ground (arith, has-append a (slots d) (d.curr.top ∷ [])))

  -- the other nodes keep their contents
  pushed-mem : (a : ℕ) → has a (slots d) ≡ true → (push_node d w).mem a ≡ d.mem a
  unfolding push_node
  pushed-mem a m = ground (arith, top_unused)

  kept-Chain : (h : ℕ) → Chain (push_node d w).mem (d.tbl h) (s.chains h)
  kept-Chain h =
      Chain-frame d.mem (push_node d w).mem (d.tbl h) (s.chains h)
        (λ a m. ap (λ n. n.next) (pushed-mem a (s.within h a m))) (s.linked h)

  new_node : (push_node d w).mem d.curr.top ≡ record { object = w; next = d.tbl (bucket d w) }
  unfolding push_node
  new_node = update_self d.mem d.curr.top _

  head-Chain :
      Chain (push_node d w).mem ((push_node d w).mem d.curr.top).next (s.chains (bucket d w))
  head-Chain = rw (ap (λ n. n.next) new_node) (kept-Chain (bucket d w))

  pushed-linked :
      (h : ℕ) → Chain (push_node d w).mem ((push_node d w).tbl h) (pushed_chains d w s.chains h)
  unfolding push_node
  pushed-linked h = elim (Bool-cases (h == bucket d w)) [
    | inl e ↦ rw e (refl, omega (arith, s.start, s.filled), head-Chain)
    | inr e ↦ rw e (kept-Chain h)
  ]

  pushed-within :
      (h a : ℕ) → has a (pushed_chains d w s.chains h) ≡ true → has a (slots (push_node d w)) ≡ true
  pushed-within h a m = ground (arith, has-pushed a, s.within h a, s.within (bucket d w) a)

  pushed-placed :
      (a : ℕ)
      → has a (slots (push_node d w)) ≡ true
      → ((push_node d w).mem a).object ≢ 0
      → has a (pushed_chains d w s.chains (bucket d ((push_node d w).mem a).object)) ≡ true
  pushed-placed a m n = elim (Bool-cases (has a (slots d))) [
    | inl old ↦
        let same = pushed-mem a old in rw same (ground (arith, s.placed a old (rw same at n)))
    | inr new ↦
        let e : a ≡ d.curr.top = ground (arith, has-pushed a) in rw (e, new_node) (ground arith)
  ]

  -- no node in use holds a word that is not an element
  no_holder : has w (elements d) ≡ false → (a : ℕ) → has a (slots d) ≡ true → (d.mem a).object ≢ w
  unfolding elements
  no_holder out a m e =
      let h = has-contents_of d.mem (slots d) a m (λ z. nonzero (sym e ∙ z)) in ground arith

  pushed-single :
      has w (elements d) ≡ false
      → (a b : ℕ) → has a (slots (push_node d w)) ≡ true
      → has b (slots (push_node d w)) ≡ true
      → ((push_node d w).mem a).object ≢ 0
      → ((push_node d w).mem a).object ≡ ((push_node d w).mem b).object
      → a ≡ b
  pushed-single out a b m k n e = elim (Bool-cases (has a (slots d))) [
    | inl old ↦ elim (Bool-cases (has b (slots d))) [
      | inl old' ↦
          s.single a b old old' (rw (pushed-mem a old) at n)
            (rw (pushed-mem a old, pushed-mem b old') at e)
      | inr new ↦
          let f : b ≡ d.curr.top = ground (arith, has-pushed b) in
          absurd (no_holder out a old (rw (pushed-mem a old, f, new_node) at e))
    ]
    | inr new ↦
        let f : a ≡ d.curr.top = ground (arith, has-pushed a) in
        elim (Bool-cases (has b (slots d))) [
          | inl old' ↦
              absurd (no_holder out b old' (sym (rw (pushed-mem b old', f, new_node) at e)))
          | inr new' ↦ ground (arith, has-pushed b)
        ]
  ]

  -- With room in the current segment, a push of a new word keeps the invariant.
  pub push_node-IsSound :
      has w (elements d) ≡ false → d.curr.top < d.curr.lim → IsSound (push_node d w)
  unfolding push_node
  push_node-IsSound out room = record {
    chains = pushed_chains d w s.chains;
    linked = pushed-linked;
    within = pushed-within;
    placed = pushed-placed;
    single = pushed-single out;
    short = λ h.
        rw (slots-push_node d w s.filled, length-append)
          (ground (arith, s.short h, s.short (bucket d w)));
    lower =
        rw (slots-push_node d w s.filled)
          (rw (add-one d.curr.top) (AllBelow-concat d.curr.top (slots d) s.lower));
    distinct =
        rw (slots-push_node d w s.filled)
          (IsDistinct-concat d.curr.top (slots d) s.lower s.distinct);
    start = s.start;
    filled = omega (arith, s.filled);
    bounded = omega arith;
    fresh = s.fresh;
    last = s.last;
    sized = s.sized;
    first = first-retop d.before d.curr (d.curr.top + 1) d.brk s.first;
  }

  pub elements-push_node : elements (push_node d w) ≡ elements d ++ w ∷ []
  unfolding elements contents
  elements-push_node =
      rw (slots-push_node d w s.filled, contents-append, new_node)
        (ground (
          arith,
          contents-frame d.mem (push_node d w).mem (slots d)
              (λ a m. ap (λ n. n.object) (pushed-mem a m)),
        ))
