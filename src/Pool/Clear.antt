-- ===== src/Pool/Clear.antt =====
-- The empty pool: as created, and as cleared.
use larceny.Base.{ℕ, ◌-◌, ◌<◌, ◌≡◌, refl, [], arith, span}
use larceny.Pool.{Pool, Segment, slots, create_pool, clear_pool}
use larceny.Pool.Contents.{contents, elements}
use larceny.Pool.Sound.{IsSound, IsBlock}

slots-empty : (s : Segment) → s.top ≡ s.bot → span s.bot (s.top - s.bot) ≡ []
unfolding span
slots-empty s e = let z : s.top - s.bot ≡ 0 = omega arith in rw z refl

-- A pool of one empty segment with a zeroed table.
empty-IsSound :
    (d : Pool)
    → d.before ≡ []
    → d.after ≡ []
    → d.tbl ≡ (λ _. 0)
    → d.curr.top ≡ d.curr.bot
    → IsBlock d.brk d.curr
    → 0 < d.pool_entries
    → slots d ≡ []
    → IsSound d
empty-IsSound d b a t e block size none_used = record {
  chains = λ _. [];
  linked = λ h. rw t refl;
  within = λ h x m. absurd (ground arith);
  placed = λ x m n. absurd (ground arith);
  single = λ x y m k n o. absurd (ground arith);
  short = λ h. omega arith;
  lower = rw none_used tt;
  distinct = rw none_used tt;
  start = block.0;
  filled = omega arith;
  bounded = omega arith;
  fresh = omega arith;
  last = a;
  sized = size;
  first = rw b block;
}

pub slots-create_pool : (t n : ℕ) → slots (create_pool t n) ≡ []
unfolding create_pool
slots-create_pool t n = slots-empty (create_pool t n).curr refl

pub create_pool-IsSound : (t n : ℕ) → 0 < n → IsSound (create_pool t n)
unfolding create_pool
create_pool-IsSound t n h =
    empty-IsSound (create_pool t n) refl refl refl refl (omega arith) h (slots-create_pool t n)

pub slots-clear_pool : (d : Pool) → slots (clear_pool d) ≡ []
unfolding clear_pool
slots-clear_pool d = slots-empty (clear_pool d).curr refl

-- Clearing needs of the pool that its first segment is a block and that segments are not empty.
pub clear_pool-IsSound : (d : Pool) → IsSound d → IsSound (clear_pool d)
unfolding clear_pool
clear_pool-IsSound d s =
    empty-IsSound (clear_pool d) refl refl refl refl s.first s.sized (slots-clear_pool d)

pub elements-empty : (d : Pool) → slots d ≡ [] → elements d ≡ []
unfolding elements contents
elements-empty d e = rw e refl
