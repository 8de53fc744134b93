-- ===== src/Extbmp/Relist.antt =====
-- Moving a leaf between the lists of generations: no assertion fails, and only links change.
use mathlib.Core.Path.{subst, fun_ext}
use larceny.Base.{
  ap, none, if◌then◌else◌, ℕ, ◌≤◌, ◌<◌, ◌≡◌, ◌≢◌, refl, ◌∙◌, inl, inr, true, false, Option, some,
  arith, Option-cases, Bool-cases, update, ◌==◌, ==_iff,
}
use larceny.Extbmp.{Leaves, Extbmp}
use larceny.Extbmp.Lists.{
  modify, modify_unless_null, insert_leaf_in_list_core, insert_leaf_in_list,
  move_leaf_to_mixed_list,
}
use larceny.Extbmp.Ops.{relist}
use larceny.Extbmp.Linked.{
  Linked, insert-Linked_empty, insert-Linked, removed_head, remove-Linked, remove-apart,
}
use larceny.Extbmp.Valid.{gnos, prevs, nexts}
use larceny.Extbmp.Grow.{IsUnlisted}

pub Linked-ext :
    (g g' : ℕ → Option ℕ) (p p' n n' h h' : ℕ → ℕ)
    → ((a : ℕ) → g a ≡ g' a)
    → ((a : ℕ) → p a ≡ p' a)
    → ((a : ℕ) → n a ≡ n' a)
    → ((a : ℕ) → h a ≡ h' a)
    → Linked g p n h
    → Linked g' p' n' h'
Linked-ext g g' p p' n n' h h' eg ep en eh l =
    subst (λ x. Linked x p' n' h') (fun_ext eg)
      (subst (λ x. Linked g x n' h') (fun_ext ep)
        (subst (λ x. Linked g p x h') (fun_ext en) (subst (λ x. Linked g p n x) (fun_ext eh) l)))

-- The lists of `lv'` with `head'` are in order, and its leaves are those of `lv` but for their links.
pub record Relinks (lv : Leaves) (lv' : Leaves) (head' : ℕ → ℕ) : Type 0 where
  pub brk : lv'.brk ≡ lv.brk
  pub starts : (a : ℕ) → (lv'.at a).start ≡ (lv.at a).start
  pub bitmaps : (a : ℕ) → (lv'.at a).bitmap ≡ (lv.at a).bitmap
  pub blank : (a : ℕ) → lv.brk ≤ a → IsUnlisted (lv'.at a)
  pub linked : Linked (gnos lv') (prevs lv') (nexts lv') head'

-- What a list operation leaves behind: `leaf` is on the list of `g`, other leaves are on their own.
pub record Relisted (e : Extbmp) (leaf g : ℕ) (result : Option Extbmp) : Type 0 where
  pub after : Leaves
  pub heads : ℕ → ℕ
  pub runs : result ≡ some (record e { leaves = after; gno_to_leaf = heads })
  pub relinks : Relinks e.leaves after heads
  pub listed : gnos after leaf ≡ some g
  pub others : (a : ℕ) → a ≢ leaf → gnos after a ≡ gnos e.leaves a

-- The list for a leaf that gets an address of generation `gno`: that of the generation if the leaf is
-- on no list or on this one, and the mixed list otherwise.
abbrev pub list_for : Option ℕ → ℕ → ℕ
list_for none gno = gno
list_for (some g) gno = if g == gno then gno else 0

abbrev pub Links : Extbmp → Type 0
Links e = Linked (gnos e.leaves) (prevs e.leaves) (nexts e.leaves) e.gno_to_leaf

abbrev pub Blank : Extbmp → Type 0
Blank e = (a : ℕ) → e.leaves.brk ≤ a → IsUnlisted (e.leaves.at a)

module _ (e : Extbmp) (linked : Links e) (blank : Blank e) (leaf : ℕ) (not_null : leaf ≢ 0)
    (allocated : leaf < e.leaves.brk) where
  abbrev lv : Leaves
  lv = e.leaves

  abbrev old_first : ℕ → ℕ
  old_first gno = e.gno_to_leaf gno

  is_null : (n : ℕ) → n ≡ 0 → (n == 0) ≡ true
  is_null n h = ground arith

  pub insert_core :
      (gno : ℕ)
      → (prevs lv leaf ≡ 0) × (nexts lv leaf ≡ 0)
      → ((i : ℕ) → e.gno_to_leaf i ≢ leaf)
      → Relisted e leaf gno (insert_leaf_in_list_core e leaf gno)
  unfolding insert_leaf_in_list_core
  insert_core gno alone apart = elim (Bool-cases (old_first gno == 0)) [
    | inl empty ↦ record {
      after = modify lv leaf (λ l. record l { gno = some gno });
      heads = update e.gno_to_leaf gno leaf;
      listed = ground arith;
      others = λ a n. ground arith;
      runs = rw (is_null _ (alone.0), is_null _ (alone.1), empty, insert_leaf_in_list_core) refl;
      relinks = record {
        brk = refl;
        starts = λ a. ground arith;
        bitmaps = λ a. ground arith;
        blank = λ a above.
            let u = blank a above in
            record {
              no_gno = ground (arith, u.no_gno);
              no_prev = ground (arith, u.no_prev);
              no_next = ground (arith, u.no_next);
            };
        linked =
            Linked-ext _ _ _ _ _ _ _ _ (λ a. ground arith) (λ a. ground arith) (λ a. ground arith)
              (λ a. refl)
              (insert-Linked_empty _ _ _ _ linked leaf gno not_null alone apart (ground arith));
      };
    }
    | inr full ↦
        let head_prev = is_null _ (linked.first gno (ground arith)) in
        record {
          after =
              modify
                (modify (modify lv leaf (λ l. record l { gno = some gno })) (old_first gno)
                  (λ l. record l { prev_for_gno = leaf }))
                leaf (λ l. record l { next_for_gno = old_first gno });
          heads = update e.gno_to_leaf gno leaf;
          listed = ground arith;
          others = λ a n. ground arith;
          runs =
              rw
                (
                  is_null _ (alone.0),
                  is_null _ (alone.1),
                  full,
                  head_prev,
                  insert_leaf_in_list_core,
                )
                refl;
          relinks = record {
            brk = refl;
            starts = λ a. ground arith;
            bitmaps = λ a. ground arith;
            blank = λ a above.
                let u = blank a above in
                let o = linked.owned gno (ground arith) in
                record {
                  no_gno = ground (arith, u.no_gno, o);
                  no_prev = ground (arith, u.no_prev, u.no_gno, o);
                  no_next = ground (arith, u.no_next, u.no_gno, o);
                };
            linked =
                Linked-ext _ _ _ _ _ _ _ _ (λ a. ground arith) (λ a. ground (arith, apart gno))
                  (λ a. ground (arith, apart gno)) (λ a. refl)
                  (insert-Linked _ _ _ _ linked leaf gno not_null alone apart (ground arith));
          };
        }
  ]

  -- The leaf off the list `g`, as both callers take it off.
  module _ (g : ℕ) (mine : gnos lv leaf ≡ some g) where
    abbrev pub unlinked : Leaves
    unlinked =
        let prev = prevs lv leaf in
        let next = nexts lv leaf in
        modify
          (modify_unless_null (modify_unless_null lv prev (λ l. record l { next_for_gno = next }))
            next (λ l. record l { prev_for_gno = prev }))
          leaf (λ l. record l { prev_for_gno = 0; next_for_gno = 0 })

    abbrev pub unlinked_head : ℕ → ℕ
    unlinked_head =
        removed_head (gnos lv) (prevs lv) (nexts lv) e.gno_to_leaf linked leaf g not_null mine

    pub unlinked-Relinks : Relinks lv unlinked unlinked_head
    unlinked-Relinks = record {
      brk = ground arith;
      starts = λ a. ground arith;
      bitmaps = λ a. ground arith;
      blank = λ a above.
          let u = blank a above in
          record {
            no_gno = ground (arith, u.no_gno);
            no_prev = ground (arith, u.no_prev, u.no_gno, linked.along leaf);
            no_next = ground (arith, u.no_next, u.no_gno, linked.forth leaf);
          };
      linked =
          Linked-ext _ _ _ _ _ _ _ _ (λ a. ground arith) (λ a. ground arith) (λ a. ground arith)
            (λ a. refl) (remove-Linked _ _ _ _ linked leaf g not_null mine);
    }

    unlinked-gnos : (a : ℕ) → gnos unlinked a ≡ gnos lv a
    unlinked-gnos a = ground arith

    alone_after : (prevs unlinked leaf ≡ 0) × (nexts unlinked leaf ≡ 0)
    alone_after = (ground arith, ground arith)

unchanged :
    (e : Extbmp) (leaf g : ℕ)
    → Links e
    → Blank e
    → gnos e.leaves leaf ≡ some g
    → Relisted e leaf g (some e)
unchanged e leaf g linked blank listed = record {
  listed = listed;
  others = λ a n. refl;
  after = e.leaves;
  heads = e.gno_to_leaf;
  runs = refl;
  relinks = record {
    brk = refl;
    starts = λ a. refl;
    bitmaps = λ a. refl;
    blank = blank;
    linked = linked;
  };
}

Relinks-trans : (a b c : Leaves) (h h' : ℕ → ℕ) → Relinks a b h → Relinks b c h' → Relinks a c h'
Relinks-trans a b c h h' r s = record {
  brk = s.brk ∙ r.brk;
  starts = λ x. s.starts x ∙ r.starts x;
  bitmaps = λ x. s.bitmaps x ∙ r.bitmaps x;
  blank = λ x above. s.blank x (omega (arith, r.brk));
  linked = s.linked;
}

module _ (e : Extbmp) (linked : Links e) (blank : Blank e) (leaf : ℕ) (not_null : leaf ≢ 0)
    (allocated : leaf < e.leaves.brk) where
  move_step :
      (g : ℕ) (mine : gnos e.leaves leaf ≡ some g)
      → g ≢ 0
      → move_leaf_to_mixed_list e leaf g
        ≡ insert_leaf_in_list_core
            (record e {
              leaves = unlinked e linked blank leaf not_null allocated g mine;
              gno_to_leaf = unlinked_head e linked blank leaf not_null allocated g mine;
            })
            leaf
            0
  unfolding move_leaf_to_mixed_list
  move_step g mine mixed =
      let pure : (g == 0) ≡ false = ground arith in
      elim (Bool-cases (e.gno_to_leaf g == leaf)) [
        | inl here ↦
            let at = (==_iff (e.gno_to_leaf g) leaf).0 here in
            let first : prevs e.leaves leaf ≡ 0 = ground (arith, linked.first g) in
            rw
              (
                pure,
                here,
                is_null e linked blank leaf not_null allocated _ first,
                move_leaf_to_mixed_list,
              )
              refl
        | inr inside ↦ rw (pure, inside, move_leaf_to_mixed_list) refl
      ]

  move_lem :
      (g : ℕ)
      → gnos e.leaves leaf ≡ some g
      → g ≢ 0
      → Relisted e leaf 0 (move_leaf_to_mixed_list e leaf g)
  unfolding move_leaf_to_mixed_list
  move_lem g mine mixed =
      let lv = unlinked e linked blank leaf not_null allocated g mine in
      let heads = unlinked_head e linked blank leaf not_null allocated g mine in
      let r = unlinked-Relinks e linked blank leaf not_null allocated g mine in
      let e1 = record e { leaves = lv; gno_to_leaf = heads } in
      let s =
        insert_core e1 r.linked (λ a above. r.blank a (omega (arith, r.brk))) leaf not_null
          (omega (arith, r.brk)) 0 (alone_after e linked blank leaf not_null allocated g mine)
          (remove-apart _ _ _ _ linked leaf g not_null mine) in
      record {
        after = s.after;
        heads = s.heads;
        listed = s.listed;
        others =
            λ a n. s.others a n ∙ unlinked-gnos e linked blank leaf not_null allocated g mine a;
        runs = move_step g mine mixed ∙ s.runs;
        relinks = Relinks-trans e.leaves lv s.after heads s.heads r s.relinks;
      }

  pub relist_lem :
      (gno : ℕ) → Relisted e leaf (list_for (gnos e.leaves leaf) gno) (relist e leaf gno)
  unfolding relist insert_leaf_in_list
  relist_lem gno = elim (Option-cases (gnos e.leaves leaf)) [
    | inl new ↦
        rw (new, relist)
          (insert_core e linked blank leaf not_null allocated gno (linked.loose leaf new)
            (λ i at. ground (arith, linked.owned i)))
    | inr (g, listed) ↦ elim (Bool-cases (g == 0)) [
      | inl mixed ↦
          let at : list_for (some g) gno ≡ 0 = ground arith in
          rw (listed, mixed, at, relist)
            (unchanged e leaf 0 linked blank (listed ∙ ap some ((==_iff g 0).0 mixed)))
      | inr pure ↦ elim (Bool-cases (g == gno)) [
        | inl same ↦
            rw (listed, pure, same, relist)
              (unchanged e leaf gno linked blank (listed ∙ ap some ((==_iff g gno).0 same)))
        | inr other ↦ rw (listed, pure, other, relist) (move_lem g listed (ground arith))
      ]
    ]
  ]
