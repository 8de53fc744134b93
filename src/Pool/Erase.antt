-- ===== src/Pool/Erase.antt =====
-- Removal: words turn to 0 where they stand, and the links stay.
use larceny.Base.{ℕ, ◌≡◌, refl, sym, ◌∙◌, ◌≢◌, ◌⊎◌, inr, true, arith, has}
use larceny.Pool.{Memory, Pool, slots, erase_node}
use larceny.Pool.Walk.{Chain-frame}
use larceny.Pool.Contents.{elements, without, contents-erase}
use larceny.Pool.Sound.{IsSound}

-- `mem'` is `mem` with some words erased.
pub record Thins (mem mem' : Memory) : Type 0 where
  pub links : (a : ℕ) → (mem' a).next ≡ (mem a).next
  pub words : (a : ℕ) → ((mem' a).object ≡ 0) ⊎ ((mem' a).object ≡ (mem a).object)

pub Thins-refl : (mem : Memory) → Thins mem mem
Thins-refl mem = record { links = λ a. refl; words = λ a. inr refl }

pub Thins-trans : (m n p : Memory) → Thins m n → Thins n p → Thins m p
Thins-trans m n p t u = record {
  links = λ a. u.links a ∙ t.links a;
  words = λ a. ground (arith, t.words a, u.words a);
}

pub Thins-erase_node : (mem : Memory) (b : ℕ) → Thins mem (erase_node mem b)
unfolding erase_node
Thins-erase_node mem b = record { links = λ a. ground arith; words = λ a. ground arith }

kept :
    (mem mem' : Memory) (a : ℕ)
    → Thins mem mem'
    → (mem' a).object ≢ 0
    → (mem' a).object ≡ (mem a).object
kept mem mem' a t n = ground (arith, t.words a)

-- Erasing words keeps the invariant, whichever they are.
pub Thins-IsSound :
    (d : Pool) (mem' : Memory) → IsSound d → Thins d.mem mem' → IsSound (record d { mem = mem' })
Thins-IsSound d mem' s t = record {
  chains = s.chains;
  linked = λ h. Chain-frame d.mem mem' (d.tbl h) (s.chains h) (λ a m. t.links a) (s.linked h);
  within = s.within;
  placed = λ a m n. let e = kept d.mem mem' a t n in rw e (s.placed a m (rw e at n));
  single = λ a b m k n e.
      let f = kept d.mem mem' a t n in
      let g = kept d.mem mem' b t (rw e at n) in s.single a b m k (rw f at n) (sym f ∙ e ∙ g);
  short = s.short;
  lower = s.lower;
  distinct = s.distinct;
  start = s.start;
  filled = s.filled;
  bounded = s.bounded;
  fresh = s.fresh;
  last = s.last;
  sized = s.sized;
  first = s.first;
}

-- Erasing a node in use takes its word out of the elements.
pub elements-erase_node :
    (d : Pool) (b : ℕ)
    → IsSound d
    → has b (slots d) ≡ true
    → (d.mem b).object ≢ 0
    → elements (record d { mem = erase_node d.mem b }) ≡ without (d.mem b).object (elements d)
unfolding elements
elements-erase_node d b s m n =
    contents-erase d.mem (slots d) b n (λ a k e. sym (s.single b a m k n (sym e)))
