-- ===== src/Extbmp/Words.antt =====
-- The enumeration of the words of a leaf against the list of the leaf's addresses.
use mathlib.Core.Path.{subst}
use mathlib.Core.List.{append-nil}
use larceny.Base.{
  ℕ, zero, suc, ◌+◌, ◌*◌, ◌%◌, ◌^◌, ◌≤◌, ◌<◌, ◌≡◌, refl, sym, ap, ◌∙◌, ◌⊎◌, inl, inr, Bool, true,
  false, not, ◌||◌, List, [], ◌∷◌, ◌++◌, arith, Bool-cases, update, ◌==◌, if◌then◌else◌,
  update_self, update_ne, ==_iff,
}
use larceny.Bits.{bit, clear_bit, test_bit_lem, bit-clear_bit}
use larceny.Extbmp.Enumerate.{
  Request, Environment, tagged, wanted, Scan, visit, object_at, scan_bit, scan_bits, LeafScan,
  scan_word, scan_words,
}
use larceny.Pool.Scan.{sift}
use larceny.UremsetArray.Visit.{sift-append}
use larceny.Extbmp.Elements.{
  bit_elements, word_elements, bit_elements-cleared, bit_elements-zero, word_elements-agree,
}

module _ {S : Type 0} (env : Environment) (r : Request) (scanner : ℕ → S → Bool × S) where
  -- what the visit of an address does: the scanner sees it if its generation is wanted
  unfoldable pub chosen : ℕ → S → Bool × S
  chosen obj s = if wanted env r obj then scanner (tagged env r obj) s else (true, s)

  visit_lem :
      (obj : ℕ) (s : S) (h : Bool)
      → obj % 8 ≡ 0
      → visit env r scanner obj (s, h) ≡ ((chosen obj s).0, ((chosen obj s).1, h))
  unfolding visit chosen
  visit_lem obj s h aligned = ground arith

  -- the bits of a word
  pub record BitsScanned (n first word_idx j curr : ℕ) (s : S) (h : Bool) (curr' : ℕ) : Type 0 where
    pub runs :
        scan_bits env r scanner n first word_idx j curr (s, h)
        ≡ (curr', ((sift chosen (bit_elements n (first + 256 * word_idx) j curr) s).1, h))
    pub kept :
        bit_elements n (first + 256 * word_idx) j curr'
        ≡ (sift chosen (bit_elements n (first + 256 * word_idx) j curr) s).0
    pub below : (i : ℕ) → i < j → bit curr' i ≡ bit curr i

  scan_set :
      (first word_idx j curr : ℕ) (s : S) (h : Bool)
      → j < 32
      → first % 8 ≡ 0
      → first + 256 * word_idx + 256 ≤ 2 ^ 32
      → bit curr j ≡ true
      → let obj = first + 256 * word_idx + 8 * j in
        scan_bit env r scanner first word_idx j curr (s, h)
        ≡ (if (chosen obj s).0 then curr else clear_bit curr j, ((chosen obj s).1, h))
  unfolding scan_bit
  scan_set first word_idx j curr s h b f l set =
      let obj = first + 256 * word_idx + 8 * j in
      let at : object_at env r scanner first word_idx j ≡ obj = omega arith in
      rw (at, visit_lem obj s h (omega arith), test_bit_lem curr j, set, scan_bit) refl

  scan_unset :
      (first word_idx j curr : ℕ) (s : S) (h : Bool)
      → bit curr j ≡ false
      → scan_bit env r scanner first word_idx j curr (s, h) ≡ (curr, (s, h))
  unfolding scan_bit
  scan_unset first word_idx j curr s h unset = rw (test_bit_lem curr j, unset, scan_bit) refl

  cleared_here : (curr j : ℕ) → j < 32 → bit (clear_bit curr j) j ≡ false
  cleared_here curr j b = ground (arith, bit-clear_bit curr j j b b)

  cleared_below : (curr j i : ℕ) → j < 32 → i < j → bit (clear_bit curr j) i ≡ bit curr i
  cleared_below curr j i b k = ground (arith, bit-clear_bit curr j i b (omega arith))

  -- the record for a bit that is set, in front of the bits after it
  cons-BitsScanned :
      (n first word_idx j curr curr1 curr' : ℕ) (s : S) (h : Bool)
      → let base = first + 256 * word_idx in
        let seen = chosen (base + 8 * j) s in
        scan_bit env r scanner first word_idx j curr (s, h) ≡ (curr1, (seen.1, h))
        → bit_elements n base (j + 1) curr1 ≡ bit_elements n base (j + 1) curr
        → BitsScanned n first word_idx (j + 1) curr1 seen.1 h curr'
        → bit curr j ≡ true
        → bit curr' j ≡ seen.0
        → ((i : ℕ) → i < j → bit curr1 i ≡ bit curr i)
        → BitsScanned (suc n) first word_idx j curr s h curr'
  unfolding scan_bits bit_elements sift
  cons-BitsScanned n first word_idx j curr curr1 curr' s h step rest ih set here below =
      let obj = first + 256 * word_idx + 8 * j in
      let s1 = (chosen obj s).1 in
      let kept = ih.kept ∙ ap (λ l. (sift chosen l s1).0) rest in
      record {
        runs = rw (step, set, scan_bits, bit_elements) (rw rest at ih.runs);
        kept = elim (Bool-cases (chosen obj s).0) [
          | inl keep ↦ rw (set, here ∙ keep, keep, bit_elements, sift) (ap (λ t. obj ∷ t) kept)
          | inr drop ↦ rw (set, here ∙ drop, drop, bit_elements, sift) kept
        ];
        below = λ i k. ih.below i (omega arith) ∙ below i k;
      }

  pub scan_bits_lem :
      (n first word_idx j curr : ℕ) (s : S) (h : Bool)
      → j + n ≤ 32
      → first % 8 ≡ 0
      → first + 256 * word_idx + 256 ≤ 2 ^ 32
      → (curr' : ℕ) × BitsScanned n first word_idx j curr s h curr'
  unfolding scan_bits bit_elements sift
  scan_bits_lem zero first word_idx j curr s h b f l =
      (curr, record { runs = refl; kept = refl; below = λ i k. refl })
  scan_bits_lem (suc n) first word_idx j curr s h b f l =
      let base = first + 256 * word_idx in
      let s1 = (chosen (base + 8 * j) s).1 in
      let below : j < j + 1 = omega arith in
      elim (Bool-cases (bit curr j)) [
        | inl set ↦
            let step = scan_set first word_idx j curr s h (omega arith) f l set in
            elim (Bool-cases (chosen (base + 8 * j) s).0) [
              | inl keep ↦
                  let (curr', ih) =
                    scan_bits_lem n first word_idx (j + 1) curr s1 h (omega arith) f l in
                  (
                    curr',
                    cons-BitsScanned n first word_idx j curr curr curr' s h (rw keep at step) refl
                        ih set (ih.below j below ∙ set ∙ sym keep) (λ i k. refl),
                  )
              | inr drop ↦
                  let (curr', ih) =
                    scan_bits_lem n first word_idx (j + 1) (clear_bit curr j) s1 h (omega arith) f
                      l in
                  (
                    curr',
                    cons-BitsScanned n first word_idx j curr (clear_bit curr j) curr' s h
                        (rw drop at step)
                        (bit_elements-cleared n base (j + 1) curr j (omega arith) (omega arith)) ih
                        set (ih.below j below ∙ cleared_here curr j (omega arith) ∙ sym drop)
                        (λ i k. cleared_below curr j i (omega arith) k),
                  )
            ]
        | inr unset ↦
            let (curr', ih) = scan_bits_lem n first word_idx (j + 1) curr s h (omega arith) f l in
            let here = ih.below j below ∙ unset in
            (
              curr',
              record {
                runs =
                    rw (scan_unset first word_idx j curr s h unset, unset, scan_bits, bit_elements)
                      ih.runs;
                kept = rw (unset, here, bit_elements) ih.kept;
                below = λ i k. ih.below i (omega arith);
              },
            )
      ]

  -- the words of a leaf, `n` of them from `word_idx` on
  pub record WordsScanned (n first word_idx : ℕ) (bitmap : ℕ → ℕ) (found : Bool) (s : S) (h : Bool)
      (l : LeafScan env r scanner) : Type 0 where
    pub kept :
        word_elements n first word_idx l.bitmap
        ≡ (sift chosen (word_elements n first word_idx bitmap) s).0
    pub state : l.scan ≡ ((sift chosen (word_elements n first word_idx bitmap) s).1, h)
    pub others : (k : ℕ) → (k < word_idx) ⊎ (word_idx + n ≤ k) → l.bitmap k ≡ bitmap k
    pub empty :
        l.found_nonzero_word ≡ false
        → (found ≡ false) × (word_elements n first word_idx l.bitmap ≡ [])

  abbrev pub leaf_scan : (ℕ → ℕ) → Bool → Scan S → LeafScan env r scanner
  leaf_scan bitmap found st = record { bitmap = bitmap; found_nonzero_word = found; scan = st }

  -- One word, from what becomes of its bits.
  one_word :
      (first word_idx : ℕ) (bitmap bitmap' : ℕ → ℕ) (found found' : Bool) (s : S) (h : Bool)
      (curr : ℕ)
      → bit_elements 32 (first + 256 * word_idx) 0 curr
        ≡ (sift chosen (bit_elements 32 (first + 256 * word_idx) 0 (bitmap word_idx)) s).0
      → bitmap' word_idx ≡ curr
      → ((k : ℕ) → (k < word_idx) ⊎ (word_idx + 1 ≤ k) → bitmap' k ≡ bitmap k)
      → (found' ≡ false → (found ≡ false) × (curr ≡ 0))
      → let bits = bit_elements 32 (first + 256 * word_idx) 0 (bitmap word_idx) in
        WordsScanned 1 first word_idx bitmap found s h
          (leaf_scan bitmap' found' ((sift chosen bits s).1, h))
  unfolding word_elements
  one_word first word_idx bitmap bitmap' found found' s h curr b at others empty =
      let base = first + 256 * word_idx in
      let whole = sym (append-nil (bit_elements 32 base 0 (bitmap word_idx))) in
      let here = append-nil _ ∙ ap (bit_elements 32 base 0) at in
      record {
        kept = here ∙ b ∙ ap (λ l. (sift chosen l s).0) whole;
        state = ap (λ l. ((sift chosen l s).1, h)) whole;
        others = others;
        empty = λ e. (
          (empty e).0,
          here ∙ ap (bit_elements 32 base 0) (empty e).1 ∙ bit_elements-zero 32 base 0,
        );
      }

  word_lem :
      (first word_idx : ℕ) (bitmap : ℕ → ℕ) (found : Bool) (s : S) (h : Bool)
      → first % 8 ≡ 0
      → first + 256 * word_idx + 256 ≤ 2 ^ 32
      → WordsScanned 1 first word_idx bitmap found s h
          (scan_word env r scanner first word_idx (leaf_scan bitmap found (s, h)))
  unfolding scan_word sift
  word_lem first word_idx bitmap found s h f l =
      let orig = bitmap word_idx in
      let base = first + 256 * word_idx in
      let (curr, b) = scan_bits_lem 32 first word_idx 0 orig s h (omega arith) f l in
      elim (Bool-cases (orig == 0)) [
        | inl zero_word ↦
            let no_bits =
              ap (bit_elements 32 base 0) ((==_iff orig 0).0 zero_word)
              ∙ bit_elements-zero 32 base 0 in
            rw (zero_word, scan_word)
              (rw no_bits at (
                one_word first word_idx bitmap bitmap found found s h orig (rw no_bits refl) refl
                  (λ k o. refl) (λ e. (e, (==_iff orig 0).0 zero_word))))
        | inr some_bits ↦ elim (Bool-cases (curr == orig)) [
          | inl same ↦
              rw (some_bits, b.runs, same, scan_word)
                (one_word first word_idx bitmap bitmap found (found || not (curr == 0)) s h curr
                  b.kept (sym ((==_iff curr orig).0 same)) (λ k o. refl)
                  (λ e. (ground arith, ground arith)))
          | inr other ↦
              rw (some_bits, b.runs, other, scan_word)
                (one_word first word_idx bitmap (update bitmap word_idx curr) found
                  (found || not (curr == 0)) s h curr b.kept (update_self bitmap word_idx curr)
                  (λ k o. update_ne bitmap word_idx k curr (ground arith))
                  (λ e. (ground arith, ground arith)))
        ]
      ]

  sift-joined :
      (xs ys : List ℕ) (s : S) {ks ls : List ℕ}
      → ks ≡ (sift chosen xs s).0
      → ls ≡ (sift chosen ys (sift chosen xs s).1).0
      → (ks ++ ls) ≡ (sift chosen (xs ++ ys) s).0
  sift-joined xs ys s p q = rw (p, q) (sym (ap (λ t. t.0) (sift-append chosen xs ys s)))

  -- The loop over the words of a leaf.
  pub scan_words_lem :
      (n first word_idx : ℕ) (bitmap : ℕ → ℕ) (found : Bool) (s : S) (h : Bool)
      → first % 8 ≡ 0
      → first + 256 * (word_idx + n) ≤ 2 ^ 32
      → WordsScanned n first word_idx bitmap found s h
          (scan_words env r scanner n first word_idx (leaf_scan bitmap found (s, h)))
  unfolding scan_words word_elements sift
  scan_words_lem zero first word_idx bitmap found s h f l = record {
    kept = refl;
    state = refl;
    others = λ k o. refl;
    empty = λ e. (e, refl);
  }
  scan_words_lem (suc n) first word_idx bitmap found s h f l =
      let one = scan_word env r scanner first word_idx (leaf_scan bitmap found (s, h)) in
      let base = first + 256 * word_idx in
      let w = word_lem first word_idx bitmap found s h f (omega arith) in
      let xs = bit_elements 32 base 0 (bitmap word_idx) in
      let ys = word_elements n first (word_idx + 1) bitmap in
      let s1 = (sift chosen xs s).1 in
      let tidy = append-nil xs in
      let state = w.state ∙ ap (λ l. ((sift chosen l s).1, h)) tidy in
      let all =
        subst
          (λ o.
            WordsScanned n first (word_idx + 1) one.bitmap one.found_nonzero_word s1 h
              (scan_words env r scanner n first (word_idx + 1) o))
          (sym (ap (leaf_scan one.bitmap one.found_nonzero_word) state))
          (scan_words_lem n first (word_idx + 1) one.bitmap one.found_nonzero_word s1 h f
            (omega arith)) in
      let same =
        word_elements-agree n first (word_idx + 1) one.bitmap bitmap
          (λ k low high. w.others k (inr low)) in
      let front = ap (bit_elements 32 base 0) (all.others word_idx (inl (omega arith))) in
      let kept1 = sym (append-nil _) ∙ w.kept ∙ ap (λ l. (sift chosen l s).0) tidy in
      let kept2 = all.kept ∙ ap (λ l. (sift chosen l s1).0) same in
      record {
        kept = sift-joined xs ys s (front ∙ kept1) kept2;
        state =
            all.state
            ∙ ap (λ l. ((sift chosen l s1).1, h)) same
            ∙ ap (λ t. (t.1, h)) (sym (sift-append chosen xs ys s));
        others = λ k o. elim o [
          | inl low ↦ all.others k (inl (omega arith)) ∙ w.others k (inl low)
          | inr high ↦ all.others k (inr (omega arith)) ∙ w.others k (inr (omega arith))
        ];
        empty = λ e.
            let (found1, rest) = all.empty e in
            let (found0, word) = w.empty found1 in
            (found0, rw (front ∙ sym (append-nil _) ∙ word) rest);
      }
