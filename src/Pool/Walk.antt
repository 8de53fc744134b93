-- ===== src/Pool/Walk.antt =====
-- The walk along one chain finds the first node with the word, and ends.
use larceny.Base.{
  ℕ, zero, suc, ◌<◌, ◌≡◌, refl, ◌≢◌, true, some, List, [], ◌∷◌, arith, length, has, ◌==◌,
  if◌then◌else◌,
}
use larceny.Pool.{Memory, walk}

-- The nodes that the links lead through from `p`, in order.
abbrev pub Chain : Memory → ℕ → List ℕ → Type 0
Chain mem p [] = p ≡ 0
Chain mem p (a ∷ ns) = (p ≡ a) × (0 < a) × Chain mem (mem a).next ns

-- the first node of the chain that holds `w`, or 0
unfoldable pub first_with : Memory → ℕ → List ℕ → ℕ
first_with mem w [] = 0
first_with mem w (a ∷ ns) = if (mem a).object == w then a else first_with mem w ns

pub walk-first_with :
    (fuel : ℕ) (mem : Memory) (p w : ℕ) (ns : List ℕ)
    → length ns < fuel
    → Chain mem p ns
    → walk fuel mem p w ≡ some (first_with mem w ns)
unfolding walk first_with
walk-first_with zero mem p w ns f c = absurd (omega arith)
walk-first_with (suc fuel) mem p w [] f c = ground arith
walk-first_with (suc fuel) mem p w (a ∷ ns) f c =
    ground (arith, walk-first_with fuel mem (mem a).next w ns (omega arith) c.2)

pub first_with_found :
    (mem : Memory) (p w : ℕ) (ns : List ℕ)
    → Chain mem p ns
    → first_with mem w ns ≢ 0
    → (has (first_with mem w ns) ns ≡ true) × ((mem (first_with mem w ns)).object ≡ w)
unfolding first_with
first_with_found mem p w [] c h = absurd (h refl)
first_with_found mem p w (a ∷ ns) c h = ground (arith, first_with_found mem (mem a).next w ns c.2)

pub first_with_absent :
    (mem : Memory) (p w : ℕ) (ns : List ℕ) (a : ℕ)
    → Chain mem p ns
    → first_with mem w ns ≡ 0
    → has a ns ≡ true
    → (mem a).object ≢ w
unfolding first_with
first_with_absent mem p w [] a c h m = absurd (ground arith)
first_with_absent mem p w (b ∷ ns) a c h m =
    ground (arith, first_with_absent mem (mem b).next w ns a c.2)

-- A change of memory that keeps the links of a chain keeps the chain.
pub Chain-frame :
    (mem mem' : Memory) (p : ℕ) (ns : List ℕ)
    → ((a : ℕ) → has a ns ≡ true → (mem' a).next ≡ (mem a).next)
    → Chain mem p ns
    → Chain mem' p ns
Chain-frame mem mem' p [] same c = c
Chain-frame mem mem' p (a ∷ ns) same c = (
  c.0,
  c.1,
  Chain-frame mem mem' (mem' a).next ns (λ b h. same b (ground arith))
      (rw (same a (ground arith)) c.2),
)
