-- ===== src/Extbmp/Window.antt =====
-- The enumeration of one leaf: which of its addresses the scanner sees.
-- The words of 256 bytes that meet the range of a request.
use larceny.Base.{
  ℕ, ◌+◌, ◌-◌, ◌*◌, ◌/◌, ◌%◌, ◌^◌, ◌≤◌, ◌<◌, ◌≡◌, refl, sym, ap, ◌∙◌, inl, inr, Bool, true, false,
  not, ◌&&◌, ◌||◌, List, [], ◌++◌, arith, Bool-cases, ◌==◌, ltb, leb, if◌then◌else◌,
}
use larceny.Extbmp.{wrap, leaf_wordaddr_lim}
use larceny.Extbmp.Enumerate.{
  Request, Environment, Scan, LeafScan, scan_words, tnode_enum_leaf, first_word, word_limit,
}
use larceny.Extbmp.Words.{chosen, WordsScanned, scan_words_lem, leaf_scan}
use larceny.Pool.Scan.{sift}
use larceny.UremsetArray.Visit.{sift-append}
use larceny.Extbmp.Elements.{
  word_elements, word_elements-agree, has-word_elements, word_elements-append, sift-cong, sift-none,
}

abbrev pub inspected : Request → ℕ → Bool
inspected r x = leb (r.first_enum / 256) (x / 256) && ltb (x / 256 * 256) r.limit_enum

module _ {S : Type 0} (env : Environment) (r : Request) (scanner : ℕ → S → Bool × S) where
  -- what the request does to an address: the scanner sees it if it is inspected and wanted
  unfoldable pub selected : ℕ → S → Bool × S
  selected obj s = if inspected r obj then chosen env r scanner obj s else (true, s)

  -- What the enumeration of the words of a leaf does.
  pub record LeafEnumerated (leaf_words : ℕ) (bitmap : ℕ → ℕ) (first : ℕ) (s : S) (h : Bool)
      (result : Bool × (ℕ → ℕ) × Scan S) : Type 0 where
    pub kept :
        word_elements leaf_words first 0 result.1
        ≡ (sift selected (word_elements leaf_words first 0 bitmap) s).0
    pub state : result.2 ≡ ((sift selected (word_elements leaf_words first 0 bitmap) s).1, h)
    pub empty : result.0 ≡ true → word_elements leaf_words first 0 result.1 ≡ []

  unseen :
      (leaf_words : ℕ) (bitmap : ℕ → ℕ) (first : ℕ) (s : S) (h h' : Bool)
      → ((x : ℕ) → first ≤ x → x < first + 256 * leaf_words → inspected r x ≡ false)
      → h' ≡ h
      → LeafEnumerated leaf_words bitmap first s h (false, bitmap, (s, h'))
  unfolding selected
  unseen leaf_words bitmap first s h h' out e =
      let nothing =
        sift-none selected selected (word_elements leaf_words first 0 bitmap) s (λ x m t.
          let (low, high) = has-word_elements leaf_words first 0 bitmap x m in
          rw (out x (omega (arith, low)) (omega (arith, high))) refl) in
      record {
        kept = sym (ap (λ t. t.0) nothing);
        state = rw e (ap (λ t. (t.1, h)) (sym nothing));
        empty = λ b. ground arith;
      }

  -- The scan of the words from `low` to `high`, where those and no others are inspected.
  module _ (leaf_words : ℕ) (bitmap : ℕ → ℕ) (first : ℕ) (s : S) (h : Bool) (low high : ℕ)
      (aligned : first % 8 ≡ 0) (fits : first + 256 * leaf_words < 2 ^ 32)
      (bound : low < leaf_words) (end : high ≤ leaf_words)
      (before : (x : ℕ) → first ≤ x → x < first + 256 * low → inspected r x ≡ false)
      (inside : (x : ℕ) → first + 256 * low ≤ x → x < first + 256 * high → inspected r x ≡ true)
      (after : (x : ℕ)
        → first + 256 * high ≤ x
        → x < first + 256 * leaf_words
        → inspected r x ≡ false) where
    abbrev rounds : ℕ
    rounds = high - low

    abbrev outer : Bool
    outer = ltb 0 low || ltb high leaf_words

    abbrev scanned : LeafScan env r scanner
    scanned =
        scan_words env r scanner rounds first low (leaf_scan env r scanner bitmap outer (s, h))

    abbrev done : WordsScanned env r scanner rounds first low bitmap outer s h scanned
    done = scan_words_lem env r scanner rounds first low bitmap outer s h aligned (omega arith)

    -- the words before, the words scanned, and the words after
    abbrev part : (ℕ → ℕ) → List ℕ × List ℕ × List ℕ
    part f = (
      word_elements low first 0 f,
      word_elements rounds first low f,
      word_elements (leaf_words - (low + rounds)) first (low + rounds) f,
    )

    zero_add : (n : ℕ) → 0 + n ≡ n
    zero_add n = omega arith

    parts :
        (f : ℕ → ℕ) → word_elements leaf_words first 0 f ≡ (part f).0 ++ ((part f).1 ++ (part f).2)
    parts f =
        word_elements-append low (leaf_words - low) leaf_words first 0 f (omega arith)
        ∙ ap (λ l. (part f).0 ++ l)
            (ap (λ i. word_elements (leaf_words - low) first i f) (zero_add low)
              ∙ word_elements-append rounds (leaf_words - (low + rounds)) (leaf_words - low) first
                  low f (omega arith))

    same_before : (part scanned.bitmap).0 ≡ (part bitmap).0
    same_before =
        word_elements-agree low first 0 scanned.bitmap bitmap
          (λ k l u. done.others k (inl (omega arith)))

    same_after : (part scanned.bitmap).2 ≡ (part bitmap).2
    same_after =
        word_elements-agree (leaf_words - (low + rounds)) first (low + rounds) scanned.bitmap bitmap
          (λ k l u. done.others k (inr (omega arith)))

    sift_before : (t : S) → sift selected (part bitmap).0 t ≡ ((part bitmap).0, t)
    unfolding selected
    sift_before t = sift-none selected selected (part bitmap).0 t λ x m u.
        let (l, k) = has-word_elements low first 0 bitmap x m in
        rw (before x (omega (arith, l)) (omega (arith, k))) refl

    sift_inside :
        (t : S) → sift selected (part bitmap).1 t ≡ sift (chosen env r scanner) (part bitmap).1 t
    unfolding selected
    sift_inside t = sift-cong selected (chosen env r scanner) (part bitmap).1 t λ x m u.
        let (l, k) = has-word_elements rounds first low bitmap x m in
        rw (inside x l (omega (arith, k, l))) refl

    sift_after : (t : S) → sift selected (part bitmap).2 t ≡ ((part bitmap).2, t)
    unfolding selected
    sift_after t = sift-none selected selected (part bitmap).2 t λ x m u.
        let (l, k) =
          has-word_elements (leaf_words - (low + rounds)) first (low + rounds) bitmap x m in
        rw (after x (omega (arith, l)) (omega (arith, k))) refl

    -- the scan of the whole leaf
    sift_all : sift selected (word_elements leaf_words first 0 bitmap) s ≡ (
      (part bitmap).0 ++ ((sift (chosen env r scanner) (part bitmap).1 s).0 ++ (part bitmap).2),
      (sift (chosen env r scanner) (part bitmap).1 s).1,
    )
    sift_all =
        rw
          (
            parts bitmap,
            sift-append selected (part bitmap).0 ((part bitmap).1 ++ (part bitmap).2) s,
            sift_before s,
            sift-append selected (part bitmap).1 (part bitmap).2 s,
            sift_inside s,
            sift_after (sift (chosen env r scanner) (part bitmap).1 s).1,
          )
          refl

    no_words : (n i : ℕ) (f : ℕ → ℕ) → n ≡ 0 → word_elements n first i f ≡ []
    unfolding word_elements
    no_words n i f z = rw z refl

    middle :
        LeafEnumerated leaf_words bitmap first s h
          (not scanned.found_nonzero_word, scanned.bitmap, scanned.scan)
    middle = record {
      kept =
          parts scanned.bitmap
          ∙ rw (same_before, done.kept, same_after) refl
          ∙ ap (λ t. t.0) (sym sift_all);
      state = done.state ∙ ap (λ t. (t.1, h)) (sym sift_all);
      empty = λ e.
          let (covered, nothing) = done.empty (ground arith) in
          parts scanned.bitmap
          ∙ rw
              (
                no_words low 0 scanned.bitmap (ground arith),
                nothing,
                no_words (leaf_words - (low + rounds)) (low + rounds) scanned.bitmap (ground arith),
              )
              refl;
    }

  pub tnode_enum_leaf_lem :
      (leaf_words : ℕ) (bitmap : ℕ → ℕ) (first : ℕ) (s : S) (h : Bool)
      → 0 < leaf_words
      → first % 256 ≡ 0
      → first + 256 * leaf_words < 2 ^ 32
      → LeafEnumerated leaf_words bitmap first s h
          (tnode_enum_leaf env r scanner leaf_words bitmap first (s, h))
  unfolding tnode_enum_leaf leaf_wordaddr_lim
  tnode_enum_leaf_lem leaf_words bitmap first s h some aligned fits =
      let limit : wrap (first + 256 * leaf_words) ≡ first + 256 * leaf_words = omega arith in
      let limit' : wrap (first + 4 * (64 * leaf_words)) ≡ first + 256 * leaf_words = omega arith in
      elim (Bool-cases (leb (first + 256 * leaf_words) r.first_enum)) [
        | inl past ↦
            rw (limit, limit', past, tnode_enum_leaf, leaf_wordaddr_lim)
              (unseen leaf_words bitmap first s h
                (h && (first + 256 * leaf_words == first + 256 * leaf_words))
                (λ x low high. ground arith) (ground arith))
        | inr reached ↦ elim (Bool-cases (leb r.limit_enum first)) [
          | inl short ↦
              let ok : (h
                    && (first + 256 * leaf_words == first + 256 * leaf_words)
                    && ltb (first_word env r scanner first) leaf_words)
                  ≡ h =
                ground arith in
              rw (limit, limit', reached, short, ok, tnode_enum_leaf, leaf_wordaddr_lim)
                (unseen leaf_words bitmap first s h h (λ x low high. ground arith) refl)
          | inr meets ↦
              let low = first_word env r scanner first in
              let high = word_limit env r scanner leaf_words first (first + 256 * leaf_words) in
              let ok : (h
                    && (first + 256 * leaf_words == first + 256 * leaf_words)
                    && ltb low leaf_words
                    && leb high leaf_words)
                  ≡ h =
                ground arith in
              rw (limit, limit', reached, meets, ok, tnode_enum_leaf, leaf_wordaddr_lim)
                (middle leaf_words bitmap first s h low high (omega arith) fits (ground arith)
                  (ground arith) (λ x l k. ground arith) (λ x l k. ground arith)
                  (λ x l k. ground arith))
        ]
      ]
