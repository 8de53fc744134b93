-- ===== src/Base/Lists.antt =====
-- Lists measured by native numbers, and lists of numbers without repetition.
use Prim.Native.Nat.{ℕ, zero, suc, ◌+◌, ◌≤◌, ◌<◌}
use mathlib.Core.Path.{◌≡◌, refl, ap, ◌∙◌}
use mathlib.Core.Logic.{inl, inr}
use mathlib.Core.Bool.{Bool, true, false, ◌&&◌, ◌||◌}
use mathlib.Core.List.{List, [], ◌∷◌, ◌++◌}
use native.Mathlib.Omega.{arith}
use larceny.Base.Tests.{leb, ltb, ◌==◌, if◌then◌else◌, Bool-cases}

module _ {ℓ} {A : Type ℓ} where
  abbrev pub length : List A → ℕ
  length [] = 0
  length (x ∷ xs) = suc (length xs)

  pub length-append : (xs ys : List A) → length (xs ++ ys) ≡ length xs + length ys
  length-append [] ys = omega arith
  length-append (x ∷ xs) ys = omega (arith, length-append xs ys)

abbrev pub has : ℕ → List ℕ → Bool
has a [] = false
has a (x ∷ xs) = (a == x) || has a xs

abbrev pub AllBelow : ℕ → List ℕ → Type 0
AllBelow n [] = Unit {0}
AllBelow n (x ∷ xs) = (x < n) × AllBelow n xs

abbrev pub IsDistinct : List ℕ → Type 0
IsDistinct [] = Unit {0}
IsDistinct (x ∷ xs) = (has x xs ≡ false) × IsDistinct xs

pub has-append : (a : ℕ) (xs ys : List ℕ) → has a (xs ++ ys) ≡ (has a xs || has a ys)
has-append a [] ys = refl
has-append a (x ∷ xs) ys = ground (arith, has-append a xs ys)

pub has-AllBelow : (n a : ℕ) (xs : List ℕ) → AllBelow n xs → has a xs ≡ true → a < n
has-AllBelow n a [] b h = absurd (ground arith)
has-AllBelow n a (x ∷ xs) b h = ground (arith, has-AllBelow n a xs b.1)

pub AllBelow-weaken : (n m : ℕ) (xs : List ℕ) → n ≤ m → AllBelow n xs → AllBelow m xs
AllBelow-weaken n m [] h b = tt
AllBelow-weaken n m (x ∷ xs) h b = (omega arith, AllBelow-weaken n m xs h b.1)

pub AllBelow-concat : (n : ℕ) (xs : List ℕ) → AllBelow n xs → AllBelow (suc n) (xs ++ n ∷ [])
AllBelow-concat n [] b = (omega arith, tt)
AllBelow-concat n (x ∷ xs) b = (omega arith, AllBelow-concat n xs b.1)

pub IsDistinct-concat :
    (n : ℕ) (xs : List ℕ) → AllBelow n xs → IsDistinct xs → IsDistinct (xs ++ n ∷ [])
IsDistinct-concat n [] b d = (refl, tt)
IsDistinct-concat n (x ∷ xs) b d =
    (ground (arith, has-append x xs (n ∷ [])), IsDistinct-concat n xs b.1 d.1)

-- low, low + 1, ..., low + n - 1
unfoldable pub span : ℕ → ℕ → List ℕ
span low zero = []
span low (suc n) = low ∷ span (low + 1) n

pub has-span : (x low n : ℕ) → has x (span low n) ≡ (leb low x && ltb x (low + n))
unfolding span
has-span x low zero = ground arith
has-span x low (suc n) = ground (arith, has-span x (low + 1) n)

pub length-span : (low n : ℕ) → length (span low n) ≡ n
unfolding span
length-span low zero = refl
length-span low (suc n) = omega (arith, length-span (low + 1) n)

pub span-suc : (low n : ℕ) → span low (suc n) ≡ span low n ++ (low + n) ∷ []
unfolding span
span-suc low zero = ground arith
span-suc low (suc n) =
    ap (λ l. low ∷ l) (span-suc (low + 1) n ∙ ap (λ m. span (low + 1) n ++ m ∷ []) (omega arith))

-- Membership after an insertion that leaves out duplicates.
pub has-insert :
    (x w : ℕ) (xs : List ℕ) → has x (if has w xs then xs else xs ++ w ∷ []) ≡ (has x xs || (x == w))
has-insert x w xs = elim (Bool-cases (has w xs)) [
  | inl h ↦ rw h (ground arith)
  | inr h ↦ rw h (ground (arith, has-append x xs (w ∷ [])))
]
