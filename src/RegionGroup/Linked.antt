-- ===== src/RegionGroup/Linked.antt =====
-- Doubly linked lists of heaps, and the invariant of the groups.
use larceny.Base.{
  ℕ, ◌<◌, ◌≡◌, ◌≢◌, refl, ◌∙◌, ◌⊎◌, inl, inr, true, false, List, [], ◌∷◌, arith, has, IsDistinct,
  ◌==◌, Bool-cases,
}
use larceny.Pool.Contents.{without, has-without}
use larceny.RegionGroup.{Heap, Groups}

-- From `a` on, with `prev` before it, the links run through the heaps listed.
abbrev pub DList : (ℕ → Heap) → ℕ → ℕ → List ℕ → Type 0
DList heap prev a [] = a ≡ 0
DList heap prev a (x ∷ xs) =
    (a ≡ x) × (0 < x) × ((heap x).prev_in_group ≡ prev) × DList heap x (heap x).next_in_group xs

pub DList-frame :
    (heap heap' : ℕ → Heap) (prev a : ℕ) (xs : List ℕ)
    → ((b : ℕ)
        → has b xs ≡ true
        → ((heap' b).prev_in_group ≡ (heap b).prev_in_group)
          × ((heap' b).next_in_group ≡ (heap b).next_in_group))
    → DList heap prev a xs
    → DList heap' prev a xs
DList-frame heap heap' prev a [] same d = d
DList-frame heap heap' prev a (x ∷ xs) same d =
    let (p, n) = same x (ground arith) in
    (
      d.0,
      d.1,
      p ∙ d.2,
      rw n (DList-frame heap heap' x (heap x).next_in_group xs (λ b h. same b (ground arith)) d.3),
    )

pub next_inside :
    (heap : ℕ → Heap) (prev q a : ℕ) (xs : List ℕ)
    → DList heap prev q xs
    → has a xs ≡ true
    → ((heap a).next_in_group ≡ 0) ⊎ (has (heap a).next_in_group xs ≡ true)
next_inside heap prev q a [] d m = absurd (ground arith)
next_inside heap prev q a (x ∷ []) d m = inl (ground arith)
next_inside heap prev q a (x ∷ y ∷ ys) d m = elim (Bool-cases (a == x)) [
  | inl e ↦ inr (ground arith)
  | inr e ↦ elim (next_inside heap x (heap x).next_in_group a (y ∷ ys) d.3 (ground arith)) [
    | inl z ↦ inl z
    | inr h ↦ inr (ground arith)
  ]
]

-- the neighbour before `a`, and that it leads to `a`
pub prev_inside :
    (heap : ℕ → Heap) (prev q a : ℕ) (xs : List ℕ)
    → DList heap prev q xs
    → has a xs ≡ true
    → ((q ≡ a) × ((heap a).prev_in_group ≡ prev))
      ⊎ ((q ≢ a)
          × (has (heap a).prev_in_group xs ≡ true)
          × ((heap (heap a).prev_in_group).next_in_group ≡ a))
prev_inside heap prev q a [] d m = absurd (ground arith)
prev_inside heap prev q a (x ∷ xs) d m = elim (Bool-cases (a == x)) [
  | inl e ↦ let same : a ≡ x = ground arith in inl (ground arith, rw same d.2)
  | inr e ↦ elim (prev_inside heap x (heap x).next_in_group a xs d.3 (ground arith)) [
    | inl (n, p) ↦ inr (ground arith, ground arith, rw p n)
    | inr (o, h, n) ↦ inr (ground arith, ground arith, n)
  ]
]

-- and the neighbour behind leads back to `a`
pub next_back :
    (heap : ℕ → Heap) (prev q a : ℕ) (xs : List ℕ)
    → DList heap prev q xs
    → has a xs ≡ true
    → (heap a).next_in_group ≢ 0
    → (heap (heap a).next_in_group).prev_in_group ≡ a
next_back heap prev q a [] d m n = absurd (ground arith)
next_back heap prev q a (x ∷ []) d m n = absurd (n (ground arith))
next_back heap prev q a (x ∷ y ∷ ys) d m n = elim (Bool-cases (a == x)) [
  | inl e ↦ let same : a ≡ x = ground arith in rw (same, d.3.0) (d.3.2)
  | inr e ↦ next_back heap x (heap x).next_in_group a (y ∷ ys) d.3 (ground arith) n
]

pub no_null : (heap : ℕ → Heap) (prev q : ℕ) (xs : List ℕ) → DList heap prev q xs → has 0 xs ≡ false
no_null heap prev q [] d = refl
no_null heap prev q (x ∷ xs) d = ground (arith, no_null heap x (heap x).next_in_group xs d.3, d.1)

pub first_inside :
    (heap : ℕ → Heap) (prev q : ℕ) (xs : List ℕ)
    → DList heap prev q xs
    → (q ≡ 0) ⊎ (has q xs ≡ true)
first_inside heap prev q [] d = inl d
first_inside heap prev q (x ∷ xs) d = inr (ground (arith, d.0))

-- The lists of the groups in memory are `members`. A heap that is in no list has no neighbours: a
-- new heap is such a one.
pub record IsLinked (s : Groups) (members : ℕ → List ℕ) : Type 0 where
  pub linked : (g : ℕ) → DList s.heap 0 (s.first_heap g) (members g)
  pub distinct : (g : ℕ) → IsDistinct (members g)
  pub in_group : (g a : ℕ) → has a (members g) ≡ true → (s.heap a).group ≡ g
  pub within : (g a : ℕ) → has a (members g) ≡ true → a < s.limit
  pub apart :
      (a : ℕ)
      → has a (members (s.heap a).group) ≡ false
      → ((s.heap a).prev_in_group ≡ 0) × ((s.heap a).next_in_group ≡ 0)

pub without-IsDistinct : (w : ℕ) (xs : List ℕ) → IsDistinct xs → IsDistinct (without w xs)
unfolding without
without-IsDistinct w [] d = tt
without-IsDistinct w (x ∷ xs) d = elim (Bool-cases (x == w)) [
  | inl e ↦ rw e (without-IsDistinct w xs d.1)
  | inr e ↦ rw e (ground (arith, has-without x w xs), without-IsDistinct w xs d.1)
]
