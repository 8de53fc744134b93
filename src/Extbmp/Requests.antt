-- ===== src/Extbmp/Requests.antt =====
-- The enumerations that clients ask for: of all addresses, and of those of one generation.
use larceny.Base.{
  ℕ, ◌+◌, ◌-◌, ◌^◌, Bool, true, false, ◌&&◌, Option, none, some, List, [], ◌∷◌, ◌==◌,
}
use larceny.Extbmp.{Extbmp, asserted}
use larceny.Extbmp.Enumerate.{Request, Environment, tnode_enumerate}

-- the request for all addresses, with the greatest word as the limit
abbrev pub request_all : Bool → Request
request_all incl_tag = record {
  gno = 0;
  ignore_gno = true;
  gno_is_static_area = false;
  need_tagged_ptr = incl_tag;
  first_enum = 0;
  limit_enum = 2 ^ 32 - 1;
}

module _ {S : Type 0} (env : Environment) where
  -- One enumeration from the root, which changes the tree in place; `none` if an assertion fails.
  unfoldable pub enumerate_root : Request → (ℕ → S → Bool × S) → Extbmp → S → Option (Extbmp × S)
  enumerate_root r scanner e s =
      let (empty, tree, st) =
        tnode_enumerate env r scanner e.depth e.tree 0
          (record { ebmp = e; leaves_enumerated = 0; nodes_enumerated = 0; scan = (s, true) }) in
      asserted st.scan.1 (some (record st.ebmp { depth = e.depth; tree = tree }, st.scan.0))

  unfoldable pub extbmp_enumerate : Bool → (ℕ → S → Bool × S) → Extbmp → S → Option (Extbmp × S)
  extbmp_enumerate incl_tag scanner e s = enumerate_root (request_all incl_tag) scanner e s

  -- The ranges of addresses that the memory manager names for a generation, one after another.
  unfoldable pub tnode_enumerate_in :
      Bool → ℕ → Bool → List (ℕ × ℕ) → (ℕ → S → Bool × S) → Extbmp → S → Option (Extbmp × S)
  tnode_enumerate_in incl_tag gno static [] scanner e s = some (e, s)
  tnode_enumerate_in incl_tag gno static ((from, to) ∷ ranges) scanner e s =
      elim (enumerate_root
        (record {
          gno = gno;
          ignore_gno = false;
          gno_is_static_area = static;
          need_tagged_ptr = incl_tag;
          first_enum = from;
          limit_enum = to;
        })
        scanner e s) [
          | none ↦ none
          | some (e', s') ↦ tnode_enumerate_in incl_tag gno static ranges scanner e' s'
        ]

  unfoldable pub extbmp_enumerate_in :
      Bool → Bool → ℕ → List (ℕ × ℕ) → (ℕ → S → Bool × S) → Extbmp → S → Option (Extbmp × S)
  extbmp_enumerate_in has_static_area incl_tag gno ranges scanner e s =
      tnode_enumerate_in incl_tag gno (has_static_area && (gno == env.gno_count - 1)) ranges scanner
        e s

abbrev pub scan_clear_always : ℕ → Unit {0} → Bool × Unit {0}
scan_clear_always loc s = (false, s)

abbrev pub scan_accum_count : ℕ → ℕ → Bool × ℕ
scan_accum_count loc accum = (true, accum + 1)

unfoldable pub extbmp_clear_members_in :
    Environment → Bool → ℕ → List (ℕ × ℕ) → Extbmp → Option Extbmp
extbmp_clear_members_in env has_static_area gno ranges e =
    elim (extbmp_enumerate_in env has_static_area false gno ranges scan_clear_always e tt) [
      | none ↦ none
      | some (e', s) ↦ some e'
    ]

unfoldable pub extbmp_count_members_in :
    Environment → Bool → ℕ → List (ℕ × ℕ) → Extbmp → Option (ℕ × Extbmp)
extbmp_count_members_in env has_static_area gno ranges e =
    elim (extbmp_enumerate_in env has_static_area false gno ranges scan_accum_count e 0) [
      | none ↦ none
      | some (e', accum) ↦ some (accum, e')
    ]
