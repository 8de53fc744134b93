-- ===== src/Pool/Contents.antt =====
-- The words that the nodes in use hold, in the order of the nodes: what a pool stands for.
use larceny.Base.{
  ℕ, ◌+◌, ◌≡◌, refl, ◌≢◌, true, false, not, ◌&&◌, List, [], ◌∷◌, ◌++◌, arith, length, has,
  IsDistinct, ◌==◌, if◌then◌else◌, Bool-cases, inl, inr,
}
use larceny.Pool.{Memory, Pool, slots, erase_node}

unfoldable pub contents : Memory → List ℕ → List ℕ
contents mem [] = []
contents mem (a ∷ ns) =
    let rest = contents mem ns in if (mem a).object == 0 then rest else (mem a).object ∷ rest

unfoldable pub elements : Pool → List ℕ
unfolding contents
elements d = contents d.mem (slots d)

unfoldable pub without : ℕ → List ℕ → List ℕ
without w [] = []
without w (x ∷ xs) = let rest = without w xs in if x == w then rest else x ∷ rest

pub contents-append :
    (mem : Memory) (ms ns : List ℕ) → contents mem (ms ++ ns) ≡ contents mem ms ++ contents mem ns
unfolding contents
contents-append mem [] ns = refl
contents-append mem (a ∷ ms) ns = ground (arith, contents-append mem ms ns)

-- Only the nodes listed matter.
pub contents-frame :
    (mem mem' : Memory) (ns : List ℕ)
    → ((a : ℕ) → has a ns ≡ true → (mem' a).object ≡ (mem a).object)
    → contents mem' ns ≡ contents mem ns
unfolding contents
contents-frame mem mem' [] same = refl
contents-frame mem mem' (a ∷ ns) same =
    ground (arith, same a, contents-frame mem mem' ns (λ b h. same b (ground arith)))

-- A word that is not 0 is among the contents exactly if some node holds it.
pub has-contents_of :
    (mem : Memory) (ns : List ℕ) (a : ℕ)
    → has a ns ≡ true
    → (mem a).object ≢ 0
    → has (mem a).object (contents mem ns) ≡ true
unfolding contents
has-contents_of mem [] a m h = absurd (ground arith)
has-contents_of mem (b ∷ ns) a m h = ground (arith, has-contents_of mem ns a)

pub contents_witness :
    (mem : Memory) (ns : List ℕ) (w : ℕ)
    → has w (contents mem ns) ≡ true
    → (a : ℕ) × (has a ns ≡ true) × ((mem a).object ≡ w) × (w ≢ 0)
unfolding contents
contents_witness mem [] w h = absurd (ground arith)
contents_witness mem (b ∷ ns) w h = elim (Bool-cases ((mem b).object == 0)) [
  | inl gone ↦
      let (a, m, e, p) = contents_witness mem ns w (ground arith) in (a, ground arith, e, p)
  | inr live ↦ elim (Bool-cases (w == (mem b).object)) [
    | inl here ↦ (b, ground arith, ground arith, ground arith)
    | inr there ↦
        let (a, m, e, p) = contents_witness mem ns w (ground arith) in (a, ground arith, e, p)
  ]
]

-- Erasing the one node that holds `w` takes `w` out of the contents.
pub contents-erase :
    (mem : Memory) (ns : List ℕ) (b : ℕ)
    → (mem b).object ≢ 0
    → ((a : ℕ) → has a ns ≡ true → (mem a).object ≡ (mem b).object → a ≡ b)
    → contents (erase_node mem b) ns ≡ without (mem b).object (contents mem ns)
unfolding contents without erase_node
contents-erase mem [] b h one = refl
contents-erase mem (a ∷ ns) b h one =
    ground (arith, one a, contents-erase mem ns b h (λ c m. one c (ground arith)))

pub has-without : (v w : ℕ) (xs : List ℕ) → has v (without w xs) ≡ (has v xs && not (v == w))
unfolding without
has-without v w [] = refl
has-without v w (x ∷ xs) = ground (arith, has-without v w xs)

pub without_absent : (w : ℕ) (xs : List ℕ) → has w xs ≡ false → without w xs ≡ xs
unfolding without
without_absent w [] h = refl
without_absent w (x ∷ xs) h = ground (arith, without_absent w xs)

pub length-without :
    (w : ℕ) (xs : List ℕ) → IsDistinct xs → has w xs ≡ true → length (without w xs) + 1 ≡ length xs
unfolding without
length-without w [] d h = absurd (ground arith)
length-without w (x ∷ xs) d h = ground (arith, length-without w xs d.1, without_absent w xs)

-- Where no two nodes hold the same word, no word stands twice among the contents.
pub contents-IsDistinct :
    (mem : Memory) (ns : List ℕ)
    → IsDistinct ns
    → ((a b : ℕ)
        → has a ns ≡ true
        → has b ns ≡ true
        → (mem a).object ≢ 0
        → (mem a).object ≡ (mem b).object
        → a ≡ b)
    → IsDistinct (contents mem ns)
unfolding contents
contents-IsDistinct mem [] d one = tt
contents-IsDistinct mem (a ∷ ns) d one =
    let rest = contents-IsDistinct mem ns d.1 (λ b c m k. one b c (ground arith) (ground arith)) in
    elim (Bool-cases ((mem a).object == 0)) [
      | inl e ↦ rw e rest
      | inr e ↦ elim (Bool-cases (has (mem a).object (contents mem ns))) [
        | inr out ↦ rw e (out, rest)
        | inl again ↦
            let (b, m, o, p) = contents_witness mem ns (mem a).object again in
            absurd (ground (arith, one a b))
      ]
    ]
