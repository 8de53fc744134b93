-- ===== src/Extbmp/Session.antt =====
-- Any sequence of calls of a bitmap against a set of addresses.
use larceny.Base.{
  ℕ, ◌≡◌, ◌≢◌, refl, ap, ◌∙◌, Bool, not, ◌&&◌, ◌||◌, Option, none, some, List, [], ◌∷◌, arith, ◌==◌,
}
use larceny.Extbmp.{Extbmp}
use larceny.Extbmp.Ops.{extbmp_add_elem, extbmp_del_elem, extbmp_is_member}
use larceny.Extbmp.Valid.{IsValid, Address, contains}
use larceny.Extbmp.Member.{extbmp_is_member_lem, extbmp_add_elem_lem, extbmp_del_elem_lem}

pub data SetOp : Type 0 where
  add : ℕ → SetOp
  del : ℕ → SetOp
  ask : ℕ → SetOp

abbrev answered : Bool → Option (List Bool × Extbmp) → Option (List Bool × Extbmp)
answered b none = none
answered b (some (bs, e)) = some (b ∷ bs, e)

-- the calls one after another, with the answers of those that answer
unfoldable pub run : (ℕ → ℕ) → List SetOp → Extbmp → Option (List Bool × Extbmp)
run gen_of [] e = some ([], e)
run gen_of (add w ∷ ops) e = elim (extbmp_add_elem gen_of e w) [
  | none ↦ none
  | some (b, e') ↦ answered b (run gen_of ops e')
]
run gen_of (del w ∷ ops) e = elim (extbmp_del_elem e w) [
  | none ↦ none
  | some e' ↦ run gen_of ops e'
]
run gen_of (ask w ∷ ops) e = elim (extbmp_is_member e w) [
  | none ↦ none
  | some (b, e') ↦ answered b (run gen_of ops e')
]

-- the same on a set: adding and asking answer whether the address was there
unfoldable pub replay : List SetOp → (ℕ → Bool) → List Bool × (ℕ → Bool)
replay [] set = ([], set)
replay (add w ∷ ops) set =
    let (answers, end) = replay ops (λ x. set x || (x == w)) in (set w ∷ answers, end)
replay (del w ∷ ops) set = replay ops (λ x. set x && not (x == w))
replay (ask w ∷ ops) set = let (answers, end) = replay ops set in (set w ∷ answers, end)

-- The calls are of addresses that the bitmap can hold, and those added have a generation.
abbrev pub AllProper : (ℕ → ℕ) → Extbmp → List SetOp → Type 0
AllProper gen_of e [] = Unit {0}
AllProper gen_of e (add w ∷ ops) = (gen_of w ≢ 0) × Address e w × AllProper gen_of e ops
AllProper gen_of e (del w ∷ ops) = Address e w × AllProper gen_of e ops
AllProper gen_of e (ask w ∷ ops) = Address e w × AllProper gen_of e ops

resized :
    (gen_of : ℕ → ℕ) (e e' : Extbmp) (ops : List SetOp)
    → e'.leaf_words ≡ e.leaf_words
    → AllProper gen_of e ops
    → AllProper gen_of e' ops
resized gen_of e e' [] size p = tt
resized gen_of e e' (add w ∷ ops) size p =
    (p.0, (p.1.0, omega (arith, p.1.1, size)), resized gen_of e e' ops size p.2)
resized gen_of e e' (del w ∷ ops) size p =
    ((p.0.0, omega (arith, p.0.1, size)), resized gen_of e e' ops size p.1)
resized gen_of e e' (ask w ∷ ops) size p =
    ((p.0.0, omega (arith, p.0.1, size)), resized gen_of e e' ops size p.1)

-- what a run ends in
abbrev pub Refines : (ℕ → ℕ) → Extbmp → List SetOp → (ℕ → Bool) → Type 0
Refines gen_of e ops set =
    (e' : Extbmp) × (run gen_of ops e ≡ some ((replay ops set).0, e'))
    × IsValid e'
    × ((x : ℕ) → Address e x → contains e' x ≡ (replay ops set).1 x)

-- On a valid bitmap that contains what a set does, for addresses that the bitmap can hold, a run of
-- adding, deleting and testing, where what is added has a generation other than 0, fails no
-- assertion, gives the answers that the set gives, and ends in a valid bitmap that contains what the
-- set contains.
pub run-Refines :
    (gen_of : ℕ → ℕ) (ops : List SetOp) (e : Extbmp) (set : ℕ → Bool)
    → IsValid e
    → AllProper gen_of e ops
    → ((x : ℕ) → Address e x → contains e x ≡ set x)
    → Refines gen_of e ops set
unfolding run replay
run-Refines gen_of [] e set v p same = (e, refl, v, same)
run-Refines gen_of (add w ∷ ops) e set v p same =
    let (e1, step, v1, size, becomes) = extbmp_add_elem_lem e v w p.1 gen_of p.0 in
    let (e2, rest, v2, end) =
      run-Refines gen_of ops e1 (λ x. set x || (x == w)) v1 (resized gen_of e e1 ops size p.2)
        (λ x a.
          becomes x (a.0, omega (arith, a.1, size))
          ∙ ap (λ b. b || (x == w)) (same x (a.0, omega (arith, a.1, size)))) in
    (e2, rw (step, rest, same w p.1, run) refl, v2, λ x a. end x (a.0, omega (arith, a.1, size)))
run-Refines gen_of (del w ∷ ops) e set v p same =
    let (e1, step, v1, size, becomes) = extbmp_del_elem_lem e v w p.0 in
    let (e2, rest, v2, end) =
      run-Refines gen_of ops e1 (λ x. set x && not (x == w)) v1 (resized gen_of e e1 ops size p.1)
        (λ x a.
          becomes x (a.0, omega (arith, a.1, size))
          ∙ ap (λ b. b && not (x == w)) (same x (a.0, omega (arith, a.1, size)))) in
    (e2, rw (step, run) rest, v2, λ x a. end x (a.0, omega (arith, a.1, size)))
run-Refines gen_of (ask w ∷ ops) e set v p same =
    let (e1, step, v1, size, becomes) = extbmp_is_member_lem e v w p.0 in
    let (e2, rest, v2, end) =
      run-Refines gen_of ops e1 set v1 (resized gen_of e e1 ops size p.1) (λ x a.
        becomes x (a.0, omega (arith, a.1, size)) ∙ same x (a.0, omega (arith, a.1, size))) in
    (e2, rw (step, rest, same w p.0, run) refl, v2, λ x a. end x (a.0, omega (arith, a.1, size)))
