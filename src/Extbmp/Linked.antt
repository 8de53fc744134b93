-- ===== src/Extbmp/Linked.antt =====
-- The lists of leaves: the invariant of their links, through the insertion of a leaf and the
-- removal of one.
use larceny.Base.{ℕ, ◌≡◌, ◌≢◌, Option, none, some, arith, update, ◌==◌, if◌then◌else◌}

-- The generation, the two links of each leaf, and the head of each list.
pub record Linked (gno : ℕ → Option ℕ) (prev next head : ℕ → ℕ) : Type 0 where
  pub null : (prev 0 ≡ 0) × (next 0 ≡ 0)
  pub back : (a : ℕ) → next a ≢ 0 → prev (next a) ≡ a
  pub forth : (a : ℕ) → prev a ≢ 0 → next (prev a) ≡ a
  pub first : (g : ℕ) → head g ≢ 0 → prev (head g) ≡ 0
  pub owned : (g : ℕ) → head g ≢ 0 → gno (head g) ≡ some g
  pub along : (a : ℕ) → next a ≢ 0 → gno (next a) ≡ gno a
  pub loose : (a : ℕ) → gno a ≡ none → (prev a ≡ 0) × (next a ≡ 0)

module _ (gno : ℕ → Option ℕ) (prev next head : ℕ → ℕ) (h : Linked gno prev next head) where
  -- A leaf that is on no list and at no head, in front of list `g`.
  module _ (a g : ℕ) (leaf : a ≢ 0) (alone : (prev a ≡ 0) × (next a ≡ 0))
      (apart : (i : ℕ) → head i ≢ a) where
    pub insert-Linked_empty :
        head g ≡ 0 → Linked (update gno a (some g)) prev next (update head g a)
    insert-Linked_empty empty = record {
      null = h.null;
      back = h.back;
      forth = h.forth;
      first = λ i n. ground (arith, h.first i, alone);
      owned = λ i n. ground (arith, h.owned i, apart i);
      along = λ b n. ground (arith, h.along b, h.back b, h.forth a);
      loose = λ b n. ground (arith, h.loose b);
    }

    pub insert-Linked :
        head g ≢ 0
        → Linked
            (update gno a (some g))
            (update prev (head g) a)
            (update next a (head g))
            (update head g a)
    insert-Linked full = record {
      null = (ground (arith, h.null), ground (arith, h.null));
      back = λ b n. ground (arith, h.back b, h.first g, h.null);
      forth = λ b n. ground (arith, h.forth b, h.back a, h.null, apart g);
      first = λ i n. ground (arith, h.first i, h.owned i, h.owned g, alone, apart g);
      owned = λ i n. ground (arith, h.owned i, apart i);
      along = λ b n. ground (arith, h.along b, h.back b, h.owned g, h.null, apart g);
      loose = λ b n. ground (arith, h.loose b, h.owned g, alone);
    }

  -- A leaf leaves the list `g`.
  abbrev update_unless_null : (ℕ → ℕ) → ℕ → ℕ → ℕ → ℕ
  update_unless_null f a b = if a == 0 then f else update f a b

  module _ (a g : ℕ) (leaf : a ≢ 0) (mine : gno a ≡ some g) where
    abbrev pub removed_next : ℕ → ℕ
    removed_next = update (update_unless_null next (prev a) (next a)) a 0

    abbrev pub removed_prev : ℕ → ℕ
    removed_prev = update (update_unless_null prev (next a) (prev a)) a 0

    abbrev pub removed_head : ℕ → ℕ
    removed_head = if head g == a then update head g (next a) else head

    pub remove-Linked : Linked gno removed_prev removed_next removed_head
    remove-Linked = record {
      null = (ground (arith, h.null, h.back a, h.forth a), ground (arith, h.null));
      back = λ b n. ground (arith, h.back b, h.forth b, h.back a, h.forth a, h.null);
      forth = λ b n. ground (arith, h.back b, h.forth b, h.back a, h.forth a, h.null);
      first = λ i n. ground (arith, h.first i, h.first g, h.owned i, h.back a, h.forth a, h.null);
      owned = λ i n. ground (arith, h.owned i, h.along a);
      along = λ b n. ground (arith, h.along b, h.along a, h.back b, h.back a, h.forth a, h.null);
      loose = λ b n. ground (arith, h.loose b, h.along a, h.along b, h.forth a, h.back a);
    }

    pub remove-apart : (i : ℕ) → removed_head i ≢ a
    remove-apart i e = ground (arith, h.owned i, h.first g, h.back a)

  -- A leaf on no list takes any generation.
  pub relabel-Linked :
      (a : ℕ) (o : Option ℕ)
      → (prev a ≡ 0) × (next a ≡ 0)
      → ((i : ℕ) → head i ≢ a)
      → a ≢ 0
      → Linked (update gno a o) prev next head
  relabel-Linked a o alone apart leaf = record {
    null = h.null;
    back = h.back;
    forth = h.forth;
    first = h.first;
    owned = λ i n. ground (arith, h.owned i, apart i);
    along = λ b n. ground (arith, h.along b, h.back b, alone);
    loose = λ b n. ground (arith, h.loose b, alone);
  }
