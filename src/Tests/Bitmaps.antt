-- ===== src/Tests/Bitmaps.antt =====
-- A bitmap of four generations, and one address in it.
use larceny.Base.{ℕ, ◌+◌, ◌≡◌, refl, Bool, true, false, ◌||◌, some, [], ◌∷◌, arith, has, ◌==◌}
use larceny.Pool.Scan.{sift}
use larceny.Extbmp.{Extbmp, create_extensible_bitmap}
use larceny.Extbmp.Find.{find_leaf_calc_offset}
use larceny.Extbmp.Ops.{extbmp_add_elem, extbmp_is_member}
use larceny.Extbmp.Create.{empty_bitmap, create_extensible_bitmap_lem}
use larceny.Extbmp.Valid.{IsValid, Address, contains}
use larceny.Extbmp.Search.{Searched, find_alloc_lem}
use larceny.Extbmp.Member.{extbmp_add_elem_lem}
use larceny.Extbmp.Enumerate.{Environment}
use larceny.Extbmp.Requests.{request_all, enumerate_root}
use larceny.Extbmp.Window.{selected}
use larceny.Extbmp.All.{members, enumerate_root_lem}
use larceny.Extbmp.Listed.{extbmp_is_member-members}
use larceny.Extbmp.Session.{add, del, ask, Refines, run-Refines}
use larceny.Extbmp.Effect.{Becomes}

empty-IsValid : IsValid (empty_bitmap 4)
empty-IsValid = (create_extensible_bitmap_lem 4).1

the_first-Address : Address (empty_bitmap 4) 4096
the_first-Address = (refl, omega arith)

create_extensible_bitmap_lem_example :
    (create_extensible_bitmap 4 ≡ some (empty_bitmap 4))
    × IsValid (empty_bitmap 4)
    × ((x : ℕ) → contains (empty_bitmap 4) x ≡ false)
create_extensible_bitmap_lem_example = create_extensible_bitmap_lem 4

extbmp_add_elem_lem_example :
    (e' : Extbmp) × (extbmp_add_elem (λ _. 2) (empty_bitmap 4) 4096
      ≡ some (contains (empty_bitmap 4) 4096, e'))
    × IsValid e'
    × (e'.leaf_words ≡ 8192)
    × Becomes (empty_bitmap 4) e' (λ x. contains (empty_bitmap 4) x || (x == 4096))
extbmp_add_elem_lem_example =
    extbmp_add_elem_lem (empty_bitmap 4) empty-IsValid 4096 the_first-Address (λ _. 2)
      (λ e. absurd (omega (arith, e)))

-- the bitmap with the address in it
abbrev one_address : Extbmp
one_address =
    (extbmp_add_elem_lem (empty_bitmap 4) empty-IsValid 4096 the_first-Address (λ _. 2)
      (λ e. absurd (omega (arith, e)))).0

one_address-IsValid : IsValid one_address
one_address-IsValid =
    (extbmp_add_elem_lem (empty_bitmap 4) empty-IsValid 4096 the_first-Address (λ _. 2)
      (λ e. absurd (omega (arith, e)))).2

same_size : one_address.leaf_words ≡ 8192
same_size =
    (extbmp_add_elem_lem (empty_bitmap 4) empty-IsValid 4096 the_first-Address (λ _. 2)
      (λ e. absurd (omega (arith, e)))).3

one_address-Address : Address one_address 4096
one_address-Address = (refl, omega (arith, same_size))

abbrev four_gens : Environment
four_gens = record { gen_of = λ _. 2; gno_count = 4; heap = λ _. 0 }

-- the scanner that counts its calls and rejects everything
abbrev reject : ℕ → ℕ → Bool × ℕ
reject w n = (false, n + 1)

enumerate_root_lem_example :
    (e' : Extbmp) × (enumerate_root four_gens (request_all false) reject one_address 0
      ≡ some (e', (sift (selected four_gens (request_all false) reject) (members one_address) 0).1))
    × IsValid e'
    × (e'.leaf_words ≡ one_address.leaf_words)
    × (members e'
        ≡ (sift (selected four_gens (request_all false) reject) (members one_address) 0).0)
enumerate_root_lem_example =
    enumerate_root_lem four_gens (request_all false) reject one_address one_address-IsValid 0
      (omega arith) (omega arith)

extbmp_is_member-members_example :
    (e' : Extbmp) × (extbmp_is_member one_address 4096 ≡ some (has 4096 (members one_address), e'))
    × IsValid e'
    × Becomes one_address e' (contains one_address)
extbmp_is_member-members_example =
    extbmp_is_member-members one_address 4096 one_address-IsValid one_address-Address

run-Refines_example :
    Refines (λ _. 2) (empty_bitmap 4) (add 4096 ∷ ask 4096 ∷ del 4096 ∷ ask 8192 ∷ []) (λ _. false)
run-Refines_example =
    run-Refines (λ _. 2) (add 4096 ∷ ask 4096 ∷ del 4096 ∷ ask 8192 ∷ []) (empty_bitmap 4)
      (λ _. false) empty-IsValid
      (
        λ e. absurd (omega (arith, e)),
        the_first-Address,
        (the_first-Address, (the_first-Address, ((refl, omega arith), tt))),
      )
      (λ x a. (create_extensible_bitmap_lem 4).2 x)

find_alloc_lem_example :
    (e' : Extbmp) × (leaf : ℕ) × (first : ℕ) × (find_leaf_calc_offset (empty_bitmap 4) 4096 true
      ≡ some (some (leaf, first), e'))
    × Searched (empty_bitmap 4) 4096 (some (leaf, first)) e'
find_alloc_lem_example = find_alloc_lem (empty_bitmap 4) empty-IsValid 4096 the_first-Address

-- the bitmap with a new leaf, which is on no list
abbrev with_leaf : Extbmp
with_leaf = (find_alloc_lem (empty_bitmap 4) empty-IsValid 4096 the_first-Address).0

abbrev the_leaf : ℕ
the_leaf = (find_alloc_lem (empty_bitmap 4) empty-IsValid 4096 the_first-Address).1

abbrev its_first : ℕ
its_first = (find_alloc_lem (empty_bitmap 4) empty-IsValid 4096 the_first-Address).2
