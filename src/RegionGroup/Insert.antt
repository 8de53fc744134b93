-- ===== src/RegionGroup/Insert.antt =====
-- One list when a heap enters it at the front or at the end.
use larceny.Base.{
  ℕ, zero, suc, ◌≤◌, ◌<◌, ◌≡◌, ◌≢◌, refl, ap, ◌⊎◌, inl, inr, true, false, some, List, [], ◌∷◌, ◌++◌,
  arith, has, length, IsDistinct, ◌==◌, if◌then◌else◌, Bool-cases,
}
use larceny.Pool.Contents.{without, has-without, length-without}
use larceny.RegionGroup.{Heap, set_next, set_prev, join, last_in_group}
use larceny.RegionGroup.Linked.{DList, DList-frame, without-IsDistinct}

-- Numbers below `n` without repetition are at most `n` many.
pub distinct_short :
    (n : ℕ) (xs : List ℕ) → IsDistinct xs → ((a : ℕ) → has a xs ≡ true → a < n) → length xs ≤ n
distinct_short zero [] d b = omega arith
distinct_short zero (x ∷ xs) d b = absurd (omega (arith, b x (ground arith)))
distinct_short (suc n) xs d b = elim (Bool-cases (has n xs)) [
  | inl here ↦ omega (
    arith,
    length-without n xs d here,
    distinct_short n (without n xs) (without-IsDistinct n xs d)
        (λ a h. ground (arith, has-without a n xs, b a)),
  )
  | inr out ↦ omega (
    arith,
    distinct_short n xs d (λ a h. elim (Bool-cases (a == n)) [
      | inl e ↦ let same : a ≡ n = ground arith in absurd (ground (arith, ap (λ c. has c xs) same))
      | inr e ↦ ground (arith, b a h)
    ]),
  )
]

-- the walk ends at the last heap of a list
last_in_group-end :
    (fuel : ℕ) (heap : ℕ → Heap) (prev x : ℕ) (xs : List ℕ)
    → length (x ∷ xs) ≤ fuel
    → DList heap prev x (x ∷ xs)
    → (l : ℕ) × (last_in_group fuel heap x ≡ some l)
      × (has l (x ∷ xs) ≡ true)
      × ((heap l).next_in_group ≡ 0)
unfolding last_in_group
last_in_group-end zero heap prev x xs f d = absurd (omega arith)
last_in_group-end (suc fuel) heap prev x [] f d = (x, ground (arith, d.3), ground arith, d.3)
last_in_group-end (suc fuel) heap prev x (y ∷ ys) f d =
    let next : (heap x).next_in_group ≡ y = d.3.0 in
    let (l, e, m, z) = last_in_group-end fuel heap x y ys (omega arith) (rw next at d.3) in
    (l, rw next (ground (arith, e, d.3.1)), ground arith, z)

pub list-end :
    (fuel : ℕ) (heap : ℕ → Heap) (q : ℕ) (xs : List ℕ)
    → length xs ≤ fuel
    → q ≢ 0
    → DList heap 0 q xs
    → (l : ℕ) × (last_in_group fuel heap q ≡ some l)
      × (has l xs ≡ true)
      × ((heap l).next_in_group ≡ 0)
list-end fuel heap q [] f n d = absurd (n d)
list-end fuel heap q (x ∷ xs) f n d =
    rw d.0 (last_in_group-end fuel heap 0 x xs f (refl, d.1, d.2, d.3))

pub list-nil : (heap : ℕ → Heap) (prev q : ℕ) (xs : List ℕ) → q ≡ 0 → DList heap prev q xs → xs ≡ []
list-nil heap prev q [] z d = refl
list-nil heap prev q (x ∷ xs) z d = absurd (ground (arith, d.0, d.1))

-- appending behind the last heap
pub append-DList :
    (heap : ℕ → Heap) (a group l prev q : ℕ) (xs : List ℕ)
    → a ≢ 0
    → has a xs ≡ false
    → has l xs ≡ true
    → (heap l).next_in_group ≡ 0
    → IsDistinct xs
    → DList heap prev q xs
    → DList (join (set_next heap l a) a group l 0) prev q (xs ++ a ∷ [])
append-DList heap a group l prev q [] nz out m z s d = absurd (ground arith)
append-DList heap a group l prev q (x ∷ []) nz out m z s d =
    (d.0, d.1, ground (arith, d.2), (ground arith, ground arith, ground arith, ground arith))
append-DList heap a group l prev q (x ∷ y ∷ ys) nz out m z s d = elim (Bool-cases (x == l)) [
  | inl e ↦
      let same : x ≡ l = ground arith in
      absurd (ground (arith, ap (λ b. (heap b).next_in_group) same, d.3.0, d.3.1))
  | inr e ↦
      let kept : (join (set_next heap l a) a group l 0 x).next_in_group ≡ (heap x).next_in_group =
        ground arith in
      (
        d.0,
        d.1,
        ground (arith, d.2),
        rw kept (
            append-DList heap a group l x (heap x).next_in_group (y ∷ ys) nz (ground arith)
              (ground arith) z s.1 d.3),
      )
]

-- the memory after an entry at the front
abbrev pub pushed : (ℕ → Heap) → ℕ → ℕ → ℕ → ℕ → Heap
pushed heap a group next =
    if next == 0 then join heap a group 0 next else set_prev (join heap a group 0 next) next a

pub push-DList :
    (heap : ℕ → Heap) (a group next : ℕ) (xs : List ℕ)
    → a ≢ 0
    → has a xs ≡ false
    → IsDistinct xs
    → DList heap 0 next xs
    → DList (pushed heap a group next) 0 a (a ∷ xs)
push-DList heap a group next [] nz out s d =
    (refl, ground arith, ground (arith, d), ground (arith, d))
push-DList heap a group next (x ∷ xs) nz out s d =
    let kept : (pushed heap a group next x).next_in_group ≡ (heap x).next_in_group =
      ground (arith, d.0, d.1) in
    (
      refl,
      ground arith,
      ground (arith, d.0, d.1),
      (
        ground (arith, d.0, d.1),
        d.1,
        ground (arith, d.0, d.1),
        rw kept (
            DList-frame heap (pushed heap a group next) x (heap x).next_in_group xs
              (λ b h.
                let not_first : b ≢ next = ground (arith, d.0) in
                let not_entered : b ≢ a = ground arith in (ground arith, ground arith))
              d.3),
      ),
    )

-- the first heap of a list has none before it
pub front :
    (heap : ℕ → Heap) (q : ℕ) (xs : List ℕ)
    → DList heap 0 q xs
    → (q ≡ 0) ⊎ ((has q xs ≡ true) × ((heap q).prev_in_group ≡ 0))
front heap q [] d = inl d
front heap q (x ∷ xs) d = inr (ground (arith, d.0), rw d.0 d.2)
