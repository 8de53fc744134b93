-- ===== src/UremsetArray.antt =====
-- The remembered sets of all generations: src/Rts/Sys/uremset_array.c, two remembered sets for each
-- generation. Arrays are functions from generation numbers, which are below remset_count; the code
-- does not test that. Entry 0 of both arrays is the poisoned pointer 0xDEADBEEF: what the functions
-- give at 0 stands for nothing, and an operation that follows the pointer has the result `none`. The
-- loops start at 1. `gen_of` looks up the generation of a word in the page table and is a parameter.
-- Another result `none` is one of a remembered set.
pub mod Valid
pub mod Enumerate
pub mod Visit
pub mod Static
pub mod All
pub mod Copy
use larceny.Base.{
  ℕ, zero, suc, ◌+◌, ◌-◌, ◌%◌, Bool, true, false, not, ◌&&◌, ◌||◌, Option, none, some, List, [],
  ◌∷◌, update, ltb, ◌==◌, if◌then◌else◌,
}
use larceny.Gset.{Gset, gset_memberp}
use larceny.Remset.{
  Remset, create_remset, rs_clear, rs_add_elem, rs_add_elem_new, rs_add_elems_distribute,
  rs_del_elem, rs_isremembered, rs_enumerate, rs_stats, RemsetStats, is_fixnum,
}

pub record Uremset : Type 0 where
  pub remset_count : ℕ
  pub remset : ℕ → Remset
  pub major_remset : ℕ → Remset

-- what an operation gives that follows the pointers of entry `gno`
abbrev pub at_entry : {A : Type 0} → ℕ → Option A → Option A
at_entry gno result = if gno == 0 then none else result

unfoldable pub live_count : Uremset → ℕ → Option ℕ
live_count urs gno = at_entry gno (some ((urs.remset gno).live + (urs.major_remset gno).live))

-- Both sets of every generation from 1 on are created alike.
unfoldable pub alloc_uremset_array : ℕ → ℕ → Option Uremset
alloc_uremset_array gno_count rhash = elim (create_remset rhash 0) [
  | none ↦ none
  | some rs ↦ some (record { remset_count = gno_count; remset = λ _. rs; major_remset = λ _. rs })
]

-- An array with one entry more, the later ones moved up. A new entry 0 would move the poisoned pointer
-- to entry 1; regions are added above generation 0, and expand_remset_gnos is `none` there.
abbrev pub inserted : (ℕ → Remset) → ℕ → Remset → ℕ → Remset
inserted f fresh_gno rs i =
    if ltb i fresh_gno then f i else if i == fresh_gno then rs else f (i - 1)

unfoldable pub expand_remset_gnos : Uremset → ℕ → Option Uremset
expand_remset_gnos urs fresh_gno = at_entry fresh_gno (elim (create_remset 0 0) [
  | none ↦ none
  | some rs ↦ some (record {
    remset_count = urs.remset_count + 1;
    remset = inserted urs.remset fresh_gno rs;
    major_remset = inserted urs.major_remset fresh_gno rs;
  })
])

unfoldable pub clear : Uremset → ℕ → Option Uremset
clear urs gno = at_entry gno (
    some (record urs {
      remset = update urs.remset gno (rs_clear (urs.remset gno));
      major_remset = update urs.major_remset gno (rs_clear (urs.major_remset gno));
    }))

-- `n` rounds of the loop from generation `i` on.
unfoldable pub clear_from : ℕ → ℕ → (ℕ → Remset) → ℕ → Remset
clear_from zero i remset = remset
clear_from (suc n) i remset = clear_from n (i + 1) (update remset i (rs_clear (remset i)))

unfoldable pub clear_minor : Uremset → Uremset
unfolding clear_from
clear_minor urs = record urs { remset = clear_from (urs.remset_count - 1) 1 urs.remset }

-- The scanner's data is the other set, `none` once a call on it has failed.
unfoldable pub copy_over_to : ℕ → Option Remset × ℕ → Bool × (Option Remset × ℕ)
copy_over_to loc (none, words) = (true, (none, words))
copy_over_to loc (some that, words) =
    (true, (elim (rs_add_elem that loc) [ none ↦ none | some (rs, o) ↦ some rs ], words))

unfoldable pub copy_from : ℕ → ℕ → Uremset → Option Uremset
unfolding copy_over_to
copy_from zero i urs = some urs
copy_from (suc n) i urs =
    let (rs, major) = rs_enumerate copy_over_to (urs.remset i) (some (urs.major_remset i)) in
    elim major [
      | none ↦ none
      | some m ↦ copy_from n (i + 1) (record urs {
        remset = update urs.remset i rs;
        major_remset = update urs.major_remset i m;
      })
    ]

unfoldable pub copy_minor_to_major : Uremset → Option Uremset
unfolding copy_from
copy_minor_to_major urs = copy_from (urs.remset_count - 1) 1 urs

-- The `||` of C, over tests that may fail.
abbrev pub or_else_test : Option Bool → Option Bool → Option Bool
or_else_test none b = none
or_else_test (some true) b = some true
or_else_test (some false) b = b

abbrev pub is_empty : List ℕ → Bool
is_empty [] = true
is_empty (_ ∷ _) = false

module _ (gen_of : ℕ → ℕ) where
  unfoldable pub add_elem_new : Uremset → ℕ → Option (Uremset × Bool)
  add_elem_new urs w =
      let (rs, overflowed) = rs_add_elem_new (urs.major_remset (gen_of w)) w in
      at_entry (gen_of w)
        (some (record urs { major_remset = update urs.major_remset (gen_of w) rs }, overflowed))

  -- No object of the buffer has generation 0, whose pointer the distribution would follow.
  unfoldable pub finds_sets : List ℕ → Bool
  finds_sets [] = true
  finds_sets (w ∷ ws) = (is_fixnum w || not (gen_of w == 0)) && finds_sets ws

  unfoldable pub add_elems : Uremset → List ℕ → Option (Uremset × Bool)
  add_elems urs buffer =
      if not (is_empty buffer)
      then (if finds_sets buffer
          then elim (rs_add_elems_distribute gen_of urs.remset buffer) [
            | none ↦ none
            | some (remset, overflowed) ↦ some (record urs { remset = remset }, overflowed)
          ]
          else none)
      else some (urs, false)

  unfoldable pub is_remembered : Uremset → ℕ → Option Bool
  is_remembered urs w =
      if gen_of w == 0
      then some false
      else or_else_test (rs_isremembered (urs.remset (gen_of w)) w)
          (rs_isremembered (urs.major_remset (gen_of w)) w)

-- What a scan hands from call to call: the client's data and the set that mirrors deletions;
-- `none` once a call on a remembered set has failed.
abbrev pub Carried : Type 0 → Type 0
Carried S = Option (S × Option Remset) × ℕ

module _ {S : Type 0} (scanner : ℕ → S → Bool × S) where
  -- the call of the client's scanner, with its deletion mirrored
  unfoldable pub call_scanner : ℕ → S → Option Remset → Bool × Option (S × Option Remset)
  call_scanner loc s mirror =
      let (keep_elem, t) = scanner loc s in
      elim mirror [
        | none ↦ (keep_elem, some (t, none))
        | some m ↦
            if keep_elem
            then (keep_elem, some (t, some m))
            else (keep_elem, elim (rs_del_elem m loc) [ none ↦ none | some m' ↦ some (t, some m') ])
      ]

  unfoldable pub apply_scanner_to_rs : Option Remset → ℕ → Carried S → Bool × Carried S
  unfolding call_scanner
  apply_scanner_to_rs filter_these loc (none, words) = (true, (none, words))
  apply_scanner_to_rs none loc (some (s, mirror), words) =
      let (keep, t) = call_scanner loc s mirror in (keep, (t, words))
  apply_scanner_to_rs (some f) loc (some (s, mirror), words) = elim (rs_isremembered f loc) [
    | none ↦ (true, (none, words))
    | some skip ↦
        if skip
        then (true, (some (s, mirror), words))
        else let (keep, t) = call_scanner loc s mirror in (keep, (t, words))
  ]

  -- rs_enumerate with apply_scanner_to_rs
  unfoldable pub scan_remset :
      Remset → Option Remset → Option Remset → S → Remset × Option (S × Option Remset)
  unfolding apply_scanner_to_rs
  scan_remset rs filter_these mirror_these s =
      rs_enumerate (apply_scanner_to_rs filter_these) rs (some (s, mirror_these))

  -- The two enumerations of one generation: the minor set, skipping what is in the major one, then
  -- the major set, with deletions mirrored in the minor one.
  unfoldable pub enumerate_pair : Remset → Remset → S → Option (Remset × Remset × S)
  enumerate_pair minor major s =
      let (minor', first) = scan_remset minor (some major) none s in
      elim first [
        | none ↦ none
        | some (t, _) ↦
            let (major', second) = scan_remset major none (some minor') t in
            elim second [
              | none ↦ none
              | some (u, mirrored) ↦ elim mirrored [
                | none ↦ none
                | some minor'' ↦ some (minor'', major', u)
              ]
            ]
      ]

  -- The two enumerations for an entry that is not poisoned, as each of the loops has them.
  unfoldable pub enumerate_both : Uremset → ℕ → S → Option (Uremset × S)
  unfolding enumerate_pair
  enumerate_both urs gno s = elim (enumerate_pair (urs.remset gno) (urs.major_remset gno) s) [
    | none ↦ none
    | some (minor, major, t) ↦ some (
      record urs {
        remset = update urs.remset gno minor;
        major_remset = update urs.major_remset gno major;
      },
      t,
    )
  ]

  unfoldable pub enumerate_gno : Uremset → ℕ → S → Option (Uremset × S)
  enumerate_gno urs gno s = at_entry gno (enumerate_both urs gno s)

  -- `n` rounds of the loop of enumerate from generation `i` on.
  unfoldable pub enumerate_from : ℕ → ℕ → Uremset → S → Option (Uremset × S)
  unfolding enumerate_both
  enumerate_from zero i urs s = some (urs, s)
  enumerate_from (suc n) i urs s = elim (enumerate_both urs i s) [
    | none ↦ none
    | some (urs', t) ↦ enumerate_from n (i + 1) urs' t
  ]

  unfoldable pub enumerate : Uremset → S → Option (Uremset × S)
  unfolding enumerate_from
  enumerate urs s = enumerate_from (urs.remset_count - 1) 1 urs s

  -- The loops over the generations outside a set, over both sets or over the minor ones.
  unfoldable pub complement_from : ℕ → ℕ → Gset → Uremset → S → Option (Uremset × S)
  unfolding enumerate_both
  complement_from zero i gset urs s = some (urs, s)
  complement_from (suc n) i gset urs s =
      let skipped = complement_from n (i + 1) gset urs s in
      if gset_memberp i gset then skipped else elim (enumerate_both urs i s) [
        | none ↦ none
        | some (urs', t) ↦ complement_from n (i + 1) gset urs' t
      ]

  unfoldable pub minor_complement_from : ℕ → ℕ → Gset → Uremset → S → Option (Uremset × S)
  unfolding scan_remset
  minor_complement_from zero i gset urs s = some (urs, s)
  minor_complement_from (suc n) i gset urs s =
      let skipped = minor_complement_from n (i + 1) gset urs s in
      let (rs, carried) = scan_remset (urs.remset i) none none s in
      if gset_memberp i gset then skipped else elim carried [
        | none ↦ none
        | some (t, m) ↦
            minor_complement_from n (i + 1) gset (record urs { remset = update urs.remset i rs }) t
      ]

  unfoldable pub enumerate_minor_complement : Uremset → Gset → S → Option (Uremset × S)
  unfolding minor_complement_from
  enumerate_minor_complement urs gset s = minor_complement_from (urs.remset_count - 1) 1 gset urs s

  -- The static area's sets. `last_gno` reads gno_count - 1 from the collector, before each of the two
  -- enumerations: the scanner's data is all that it may have changed.
  unfoldable pub enumerate_static : (S → ℕ) → Uremset → S → Option (Uremset × S)
  unfolding scan_remset
  enumerate_static last_gno urs s =
      let g = last_gno s in
      let (minor, first) = scan_remset (urs.remset g) (some (urs.major_remset g)) none s in
      at_entry g (elim first [
        | none ↦ none
        | some (t, _) ↦
            let h = last_gno t in
            let remset = update urs.remset g minor in
            let (major, second) = scan_remset (urs.major_remset h) none (some (remset h)) t in
            at_entry h (elim second [
              | none ↦ none
              | some (u, mirrored) ↦ elim mirrored [
                | none ↦ none
                | some m ↦ some (
                  record urs {
                    remset = update remset h m;
                    major_remset = update urs.major_remset h major;
                  },
                  u,
                )
              ]
            ])
      ])

  -- `static_area` is `none` where the collector has none.
  unfoldable pub enumerate_complement : Uremset → Gset → Option (S → ℕ) → S → Option (Uremset × S)
  unfolding complement_from
  enumerate_complement urs gset static_area s =
      let rounds = urs.remset_count - 2 in
      elim static_area [
        | none ↦ complement_from rounds 1 gset urs s
        | some last_gno ↦ elim (enumerate_static last_gno urs s) [
          | none ↦ none
          | some (urs', t) ↦ complement_from rounds 1 gset urs' t
        ]
      ]
