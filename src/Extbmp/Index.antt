-- ===== src/Extbmp/Index.antt =====
-- The arithmetic of the tree: which child of a node covers an address.
use native.Mathlib.Nat.{
  le-div_iff_mul-le, div-lt_iff_lt-mul, div-mul-le_self, lt-div-mul-add, mul_comm,
  lt_of_mul-lt-mul_right,
}
use larceny.Base.{
  ℕ, ◌+◌, ◌-◌, ◌*◌, ◌/◌, ◌^◌, ◌≤◌, ◌<◌, ◌≡◌, refl, ap, ◌∙◌, ◌⊎◌, inl, inr, arith, ltb,
  if◌then◌else◌, Bool-cases,
}
use larceny.Extbmp.{minus, ceildiv}
use larceny.Extbmp.Find.{child_index, child_start}

pub div_unique : (x k r : ℕ) → 0 < r → k * r ≤ x → x < k * r + r → x / r ≡ k
div_unique x k r p low high = omega (
  arith,
  (le-div_iff_mul-le {k = r} {x = k} {y = x} p).1 low,
  (div-lt_iff_lt-mul {k = r} {x = x} {y = k + 1} p).1 (omega arith),
)

pub ceildiv_exact : (k r : ℕ) → 0 < r → ceildiv (k * r) r ≡ k
ceildiv_exact k r p =
    rw (div_unique (k * r + (r - 1)) k r p (omega arith) (omega arith))
      (div_unique (k * r) k r p (omega arith) (omega arith))

-- the subtraction of words when the result is not negative
pub minus_lem : (a b : ℕ) → b ≤ a → a < 2 ^ 32 → minus a b ≡ a - b
minus_lem a b h k = omega arith

-- The address lies in the part of the child that the index names, which begins where the code says.
pub record Covers (per_child start w : ℕ) (idx : ℕ) : Type 0 where
  pub from : start + 4 * (idx * per_child) ≤ w
  pub below : w < start + 4 * (idx * per_child) + 4 * per_child
  pub begins : child_start per_child start idx ≡ start + 4 * (idx * per_child)

pub child_index-Covers :
    (per_child start w : ℕ)
    → 0 < per_child
    → start ≤ w
    → w < 2 ^ 32
    → Covers per_child start w (child_index per_child start w)
child_index-Covers r s w p low high =
    let words : ℕ = (w - s) / 4 in
    let d = ap (λ t. t / 4 / r) (minus_lem w s low high) in
    let under = div-mul-le_self words r in
    let over = lt-div-mul-add {a = words} {b = r} p in
    rw d (record {
      from = omega (arith, under, over);
      below = omega (arith, under, over);
      begins = omega (arith, under, over);
    })

pub Covers-unique :
    (per_child start w idx : ℕ)
    → 0 < per_child
    → start + 4 * (idx * per_child) ≤ w
    → w < start + 4 * (idx * per_child) + 4 * per_child
    → w < 2 ^ 32
    → child_index per_child start w ≡ idx
Covers-unique r s w i p low high small =
    ap (λ t. t / 4 / r) (minus_lem w s (omega arith) small)
    ∙ div_unique ((w - s) / 4) i r p (omega arith) (omega arith)

-- An address that a node covers lies in one of its children.
pub index_below :
    (per_child entries start w idx : ℕ)
    → w < start + 4 * (per_child * entries)
    → start + 4 * (idx * per_child) ≤ w
    → idx < entries
index_below r e s w i high low =
    lt_of_mul-lt-mul_right r {m = i} {n = e} (omega (arith, mul_comm r e))

-- The first child of a node that a request reaches, and the limit of its children.
pub record FirstChild (first begin per_child entries low : ℕ) : Type 0 where
  pub bound : low < entries
  pub behind : (low ≡ 0) ⊎ (first + 4 * (low * per_child) ≤ begin)
  pub ahead : begin < first + 4 * (low * per_child) + 4 * per_child

pub first_child_lem :
    (first begin per_child entries : ℕ)
    → 0 < per_child
    → 0 < entries
    → begin < first + 4 * (per_child * entries)
    → FirstChild first begin per_child entries
        (if ltb first begin then (begin - first) / 4 / per_child else 0)
first_child_lem first begin r entries p some_entries reached = elim (Bool-cases (ltb first begin)) [
  | inl inside ↦
      let n = (begin - first) / 4 in
      let under = div-mul-le_self n r in
      let over = lt-div-mul-add {a = n} {b = r} p in
      let later : first < begin = ground arith in
      let at : first + 4 * (n / r * r) ≤ begin = omega (arith, under) in
      rw inside (record {
        bound = index_below r entries first begin (n / r) reached at;
        behind = inr at;
        ahead = omega (arith, over);
      })
  | inr outside ↦
      let sooner : begin ≤ first = ground arith in
      rw outside (record { bound = some_entries; behind = inl refl; ahead = omega arith })
]

pub record ChildLimit (first end per_child entries high : ℕ) : Type 0 where
  pub bound : high ≤ entries
  pub ahead : (high ≡ entries) ⊎ (end ≤ first + 4 * (high * per_child))

pub child_limit_lem :
    (first end limit per_child entries : ℕ)
    → 0 < per_child
    → first < end
    → limit ≤ first + per_child * entries
    → ChildLimit first end per_child entries
        (if ltb end limit then entries - (limit - end) / 4 / per_child else entries)
child_limit_lem first end limit r entries p open_range small = elim (Bool-cases (ltb end limit)) [
  | inl inside ↦
      let n = (limit - end) / 4 in
      let under = div-mul-le_self n r in
      let later : end < limit = ground arith in
      let below =
        index_below r entries 0 (limit - end) (n / r) (omega arith) (omega (arith, under)) in
      let high = entries - n / r in
      let sum : high + n / r ≡ entries = omega (arith, below) in
      let product = ap (λ k. k * r) sum in
      rw inside (record {
        bound = omega arith;
        ahead = inr (omega (arith, product, under, mul_comm r entries));
      })
  | inr outside ↦ rw outside (record { bound = omega arith; ahead = inl refl })
]
