-- ===== src/Pool/Grow.antt =====
-- The step to a freshly allocated segment keeps the invariant and the nodes in use.
use mathlib.Core.List.{append_assoc, append-nil}
use larceny.Base.{ℕ, ◌+◌, ◌-◌, ◌≤◌, ◌≡◌, refl, List, [], ◌∷◌, ◌++◌, arith, AllBelow-weaken, span}
use larceny.Pool.{
  Pool, Segment, slots, nodes_of, nodes_in, next_segment, first_of_segments, new_segment,
}
use larceny.Pool.Sound.{IsSound, IsBlock}

pub nodes_in-append :
    (ss : List Segment) (s : Segment) → nodes_in (ss ++ s ∷ []) ≡ nodes_in ss ++ nodes_of s
nodes_in-append [] s = append-nil (nodes_of s)
nodes_in-append (t ∷ ss) s = rw (nodes_in-append ss s, append_assoc) refl

-- What `next_segment` returns where there is no segment after the current one.
abbrev pub grown : Pool → Pool
grown d = record d {
  brk = d.brk + d.pool_entries;
  before = d.before ++ d.curr ∷ [];
  curr = new_segment d.brk d.pool_entries;
  after = [];
  numpools = d.numpools + 1;
}

pub next_segment-grown : (d : Pool) → d.after ≡ [] → next_segment d ≡ grown d
unfolding next_segment
next_segment-grown d e = rw (e, next_segment) refl

-- The step to a new segment adds no node.
pub slots-grown : (d : Pool) → slots (grown d) ≡ slots d
unfolding span
slots-grown d =
    let none_yet : d.brk - d.brk ≡ 0 = omega arith in
    rw (none_yet, append-nil, nodes_in-append d.before d.curr) refl

-- the first segment stays where it is
first-append :
    (ss : List Segment) (s t : Segment) (brk brk' : ℕ)
    → brk ≤ brk'
    → IsBlock brk (first_of_segments ss s)
    → IsBlock brk' (first_of_segments (ss ++ s ∷ []) t)
first-append [] s t brk brk' h b = omega arith
first-append (u ∷ ss) s t brk brk' h b = omega arith

pub grown-IsSound : (d : Pool) → IsSound d → IsSound (grown d)
grown-IsSound d s = record {
  chains = s.chains;
  linked = s.linked;
  within = λ h a m. rw (slots-grown d) (s.within h a m);
  placed = λ a m n. s.placed a (rw (slots-grown d) at m) n;
  single = λ a b m k n e. s.single a b (rw (slots-grown d) at m) (rw (slots-grown d) at k) n e;
  short = λ h. rw (slots-grown d) (s.short h);
  lower =
      rw (slots-grown d)
        (AllBelow-weaken d.curr.top d.brk (slots d) (omega (arith, s.bounded, s.fresh)) s.lower);
  distinct = rw (slots-grown d) s.distinct;
  start = omega (arith, s.start, s.filled, s.bounded, s.fresh);
  filled = omega arith;
  bounded = omega arith;
  fresh = omega arith;
  last = refl;
  sized = s.sized;
  first =
      first-append d.before d.curr (new_segment d.brk d.pool_entries) d.brk (d.brk + d.pool_entries)
        (omega arith) s.first;
}
