-- ===== src/Edit/Reconcile/Ledger.antt =====
-- Where each anchor is during reconciliation: carried to the new lines, tombstoned, or still ahead
-- in the cached lines.
use frances.Prelude.{
  ℕ, ◌+◌, ◌%◌, ◌^◌, ◌≤◌, ◌≡◌, List, [], ◌∷◌, ◌++◌, true, false, eq_list, eq_list_iff, Bool-cases,
  inl, inr, arith, length,
}
use mathlib.Core.List.{map-append}
use frances.Edit.Anchor.{Anchor}
use frances.Edit.Pool.{contains, mint}
use frances.Edit.Pool.Members.{count, count-append}
use frances.Edit.Pool.Mint.{IsPool, IsMinted, mint-IsMinted, mint-IsPool}
use frances.Edit.State.{LineEntry, anchors}
use frances.Edit.Reconcile.{Work, insert_lines, keep_lines, delete_lines}

abbrev places : Anchor → List Anchor → Work → ℕ
places a ahead w = count a (anchors w.new_lines) + count a w.tombstoned + count a ahead

-- `old` are the anchors that the file had, `used` those in use at the start, and `excluded` those
-- that may not be carried over.
pub record IsLedger (old used excluded ahead : List Anchor) (w : Work) : Type 0 where
  pub pool_valid : IsPool w.pool
  pub once : (a : Anchor) → places a ahead w ≤ 1
  pub in_use : (a : Anchor) → contains w.pool.used a ≡ false → places a ahead w ≡ 0
  pub kept : (a : Anchor) → contains used a ≡ true → places a ahead w ≡ count a old
  pub grown : (a : Anchor) → contains used a ≡ true → contains w.pool.used a ≡ true
  pub spared :
      (a : Anchor)
      → contains excluded a ≡ true
      → contains used a ≡ true
      → count a (anchors w.new_lines) ≡ 0
  pub buried : (a : Anchor) → count a w.tombstoned + count a ahead ≤ count a old

pub keep_lines-IsLedger :
    (old used excluded ahead : List Anchor) (les : List LineEntry) (w : Work)
    → ((a : Anchor) → contains excluded a ≡ true → count a (anchors les) ≡ 0)
    → IsLedger old used excluded (anchors les ++ ahead) w
    → IsLedger old used excluded ahead (keep_lines les w)
keep_lines-IsLedger old used excluded ahead les w free h = record {
  pool_valid = h.pool_valid;
  once = λ a. rw (moved a) (h.once a);
  in_use = λ a n. rw (moved a) (h.in_use a n);
  kept = λ a n. rw (moved a) (h.kept a n);
  grown = h.grown;
  spared = λ a x n. rw (map-append, count-append) (omega (arith, free a x, h.spared a x n));
  buried = λ a. omega (arith, h.buried a, count-append a (anchors les) ahead);
}
  where
    moved : (a : Anchor) → places a ahead (keep_lines les w) ≡ places a (anchors les ++ ahead) w
    moved a = rw (map-append, count-append) (omega (arith, count-append a (anchors les) ahead))

pub delete_lines-IsLedger :
    (old used excluded ahead : List Anchor) (les : List LineEntry) (w : Work)
    → IsLedger old used excluded (anchors les ++ ahead) w
    → IsLedger old used excluded ahead (delete_lines les w)
delete_lines-IsLedger old used excluded ahead les w h = record {
  pool_valid = h.pool_valid;
  once = λ a. rw (moved a) (h.once a);
  in_use = λ a n. rw (moved a) (h.in_use a n);
  kept = λ a n. rw (moved a) (h.kept a n);
  grown = h.grown;
  spared = h.spared;
  buried = λ a. omega (
    arith,
    h.buried a,
    count-append a (anchors les) ahead,
    count-append a w.tombstoned (anchors les),
  );
}
  where
    moved : (a : Anchor) → places a ahead (delete_lines les w) ≡ places a (anchors les ++ ahead) w
    moved a =
        omega (arith, count-append a (anchors les) ahead, count-append a w.tombstoned (anchors les))

abbrev insert_line : ℕ → Work → Work
insert_line hash w = record {
  new_lines = w.new_lines ++ (record { hash = hash; anchor = (mint w.pool).0 }) ∷ [];
  minted = w.minted ++ (length w.new_lines % 2 ^ 32, (mint w.pool).0) ∷ [];
  tombstoned = w.tombstoned;
  pool = (mint w.pool).1;
}

insert_line-IsLedger :
    (old used excluded ahead : List Anchor) (hash : ℕ) (w : Work)
    → IsLedger old used excluded ahead w
    → IsLedger old used excluded ahead (insert_line hash w)
insert_line-IsLedger old used excluded ahead hash w h = record {
  pool_valid = mint-IsPool w.pool h.pool_valid;
  once = λ a. elim (Bool-cases (eq_list (mint w.pool).0 a)) [
    | inl e ↦ omega (arith, added a, is_new a e, zero_count a e)
    | inr e ↦ omega (arith, added a, h.once a, not_new a e)
  ];
  in_use = λ a n.
      let (other, absent) = unused a n in
      omega (arith, added a, not_new a other, h.in_use a absent);
  kept = λ a n. omega (arith, added a, not_new a (old_is_other a (h.grown a n)), h.kept a n);
  grown = λ a n. rw m.recorded (ground (arith, h.grown a n));
  spared = λ a x n.
      rw (map-append, count-append)
        (omega (arith, not_new a (old_is_other a (h.grown a n)), h.spared a x n));
  buried = h.buried;
}
  where
    m : IsMinted w.pool (mint w.pool)
    m = mint-IsMinted w.pool h.pool_valid

    added :
        (a : Anchor)
        → places a ahead (insert_line hash w) ≡ places a ahead w + count a ((mint w.pool).0 ∷ [])
    added a = rw (map-append, count-append) (omega arith)

    is_new : (a : Anchor) → eq_list (mint w.pool).0 a ≡ true → count a ((mint w.pool).0 ∷ []) ≡ 1
    is_new a e = rw e

    not_new : (a : Anchor) → eq_list (mint w.pool).0 a ≡ false → count a ((mint w.pool).0 ∷ []) ≡ 0
    not_new a e = rw e

    zero_count : (a : Anchor) → eq_list (mint w.pool).0 a ≡ true → places a ahead w ≡ 0
    zero_count a e = rw (← (eq_list_iff (mint w.pool).0 a).0 e) (h.in_use _ m.fresh)

    unused :
        (a : Anchor)
        → contains (mint w.pool).1.used a ≡ false
        → (eq_list (mint w.pool).0 a ≡ false) × (contains w.pool.used a ≡ false)
    unused a n =
        let n' : contains ((mint w.pool).0 ∷ w.pool.used) a ≡ false = rw m.recorded at n in
        ground arith

    old_is_other : (a : Anchor) → contains w.pool.used a ≡ true → eq_list (mint w.pool).0 a ≡ false
    old_is_other a n = elim (Bool-cases (eq_list (mint w.pool).0 a)) [
      | inl e ↦ absurd (clash a n (rw (← (eq_list_iff (mint w.pool).0 a).0 e) m.fresh))
      | inr e ↦ e
    ]
      where
        clash : (a : Anchor) → contains w.pool.used a ≡ true → contains w.pool.used a ≡ false → ⊥
        clash a p q = cc

pub insert_lines-IsLedger :
    (old used excluded ahead : List Anchor) (hs : List ℕ) (w : Work)
    → IsLedger old used excluded ahead w
    → IsLedger old used excluded ahead (insert_lines hs w)
unfolding insert_lines
insert_lines-IsLedger old used excluded ahead [] w h = h
insert_lines-IsLedger old used excluded ahead (hash ∷ hs) w h =
    insert_lines-IsLedger old used excluded ahead hs (insert_line hash w)
      (insert_line-IsLedger old used excluded ahead hash w h)
