-- ===== src/Edit/Reconcile/Script.antt =====
-- Reconciliation along a script of the diff: it never indexes out of bounds, and the new lines have
-- the hashes of the file on disk.
use frances.Prelude.{
  ℕ, ◌≤◌, ◌≡◌, refl, sym, ap, ◌∙◌, List, [], ◌∷◌, ◌++◌, length, length-map, drop, append-nil,
  append_assoc, ok, true, arith,
}
use mathlib.Core.List.{map-append}
use frances.Edit.Anchor.{Anchor}
use frances.Edit.Pool.{contains}
use frances.Edit.Pool.Members.{count}
use frances.Edit.State.{FileAnchorState, hashes, anchors}
use frances.Edit.Diff.{DiffTag, equal, delete, insert, replace, DiffOp, IsScript, FitsTag}
use frances.Edit.Diff.Slices.{
  slice, slice-append-drop, slice_empty, drop_all, range_of_lem, map-slice,
}
use frances.Edit.Reconcile.{Work, insert_lines, keep_lines, delete_lines, apply_tag, apply_diff}
use frances.Edit.Reconcile.Ledger.{
  IsLedger, keep_lines-IsLedger, delete_lines-IsLedger, insert_lines-IsLedger,
}

hashes-insert_lines :
    (hs : List ℕ) (w : Work) → hashes (insert_lines hs w).new_lines ≡ hashes w.new_lines ++ hs
unfolding insert_lines
hashes-insert_lines [] w = sym (append-nil _)
hashes-insert_lines (h ∷ hs) w = rw (hashes-insert_lines hs, map-append, append_assoc)

-- What a range of the cached lines whose hashes the diff found on disk is carried over with.
abbrev pub IsCarried : FileAnchorState → List Anchor → List ℕ → List ℕ → Type 0
IsCarried cached excluded chs dhs =
    (i i' j j' : ℕ)
    → slice i i' chs ≡ slice j j' dhs
    → (hashes (slice i i' cached.lines) ≡ slice j j' dhs)
      × ((a : Anchor)
          → contains excluded a ≡ true
          → count a (anchors (slice i i' cached.lines)) ≡ 0)

module _ (cached : FileAnchorState) (chs dhs : List ℕ) (used excluded : List Anchor)
    (len : length chs ≡ length cached.lines) (agree : IsCarried cached excluded chs dhs) where
  abbrev ahead_of : ℕ → List Anchor
  ahead_of i = drop i (anchors cached.lines)

  -- One operation: what it takes of the cached lines, and the hashes that it gives.
  record IsStep (op : DiffOp) (w w' : Work) : Type 0 where
    ledger : IsLedger (anchors cached.lines) used excluded (ahead_of op.old_end) w'
    line_hashes : hashes w'.new_lines ≡ hashes w.new_lines ++ slice op.new_start op.new_end dhs

  ahead_split : (i i' : ℕ) → i ≤ i' → anchors (slice i i' cached.lines) ++ ahead_of i' ≡ ahead_of i
  ahead_split i i' h =
      ap (λ l. l ++ ahead_of i') (map-slice (λ le. le.anchor) i i' cached.lines)
      ∙ slice-append-drop i i' (anchors cached.lines) h

  apply_tag-IsStep :
      (tag : DiffTag) (op : DiffOp) (w : Work)
      → op.old_start ≤ op.old_end
      → op.old_end ≤ length chs
      → op.new_start ≤ op.new_end
      → op.new_end ≤ length dhs
      → FitsTag chs dhs op tag
      → IsLedger (anchors cached.lines) used excluded (ahead_of op.old_start) w
      → (w' : Work) × (apply_tag cached dhs tag op w ≡ ok w') × IsStep op w w'
  unfolding apply_tag
  apply_tag-IsStep equal op w h1 h2 h3 h4 fit l = (
    keep_lines (slice op.old_start op.old_end cached.lines) w,
    rw (range_of_lem cached.lines op.old_start op.old_end h1 (omega arith)),
    record {
      ledger =
          keep_lines-IsLedger _ _ _ _ _ w (agree _ _ _ _ fit).1
            (rw (ahead_split op.old_start op.old_end h1) l);
      line_hashes = rw (map-append, (agree _ _ _ _ fit).0);
    },
  )
  apply_tag-IsStep delete op w h1 h2 h3 h4 fit l = (
    delete_lines (slice op.old_start op.old_end cached.lines) w,
    rw (range_of_lem cached.lines op.old_start op.old_end h1 (omega arith)),
    record {
      ledger = delete_lines-IsLedger _ _ _ _ _ w (rw (ahead_split op.old_start op.old_end h1) l);
      line_hashes = rw (slice_empty op.new_start op.new_end dhs fit, append-nil);
    },
  )
  apply_tag-IsStep insert op w h1 h2 h3 h4 fit l = (
    insert_lines (slice op.new_start op.new_end dhs) w,
    rw (range_of_lem dhs op.new_start op.new_end h3 h4),
    record {
      ledger = insert_lines-IsLedger _ _ _ _ (slice op.new_start op.new_end dhs) w (rw fit l);
      line_hashes = hashes-insert_lines _ w;
    },
  )
  apply_tag-IsStep replace op w h1 h2 h3 h4 fit l =
      let les = slice op.old_start op.old_end cached.lines in
      (
        insert_lines (slice op.new_start op.new_end dhs) (delete_lines les w),
        rw (
          range_of_lem cached.lines op.old_start op.old_end h1 (omega arith),
          range_of_lem dhs op.new_start op.new_end h3 h4,
        ),
        record {
          ledger =
              insert_lines-IsLedger _ _ _ _ (slice op.new_start op.new_end dhs) (delete_lines les w)
                (delete_lines-IsLedger _ _ _ _ les w
                  (rw (ahead_split op.old_start op.old_end h1) l));
          line_hashes = hashes-insert_lines _ (delete_lines les w);
        },
      )

  pub apply_diff-IsLedger :
      (ops : List DiffOp) (i j : ℕ) (w : Work)
      → IsScript chs dhs i j ops
      → IsLedger (anchors cached.lines) used excluded (ahead_of i) w
      → (w' : Work) × (apply_diff cached dhs ops w ≡ ok w')
        × IsLedger (anchors cached.lines) used excluded [] w'
        × (hashes w'.new_lines ≡ hashes w.new_lines ++ drop j dhs)
  unfolding apply_diff
  apply_diff-IsLedger [] i j w (at_old, at_new) l =
      let none_ahead : ahead_of i ≡ [] =
        ap (λ k. drop k (anchors cached.lines))
          (at_old ∙ len ∙ sym (length-map (λ le. le.anchor) cached.lines))
        ∙ drop_all (anchors cached.lines) in
      (w, refl, rw none_ahead at l, rw (at_new, drop_all dhs, append-nil))
  apply_diff-IsLedger (op ∷ ops) i j w (oi, nj, h1, h2, h3, h4, fit, s) l =
      let (w1, e, st) = apply_tag-IsStep op.tag op w h1 h2 h3 h4 fit (rw oi l) in
      let (w2, e', l', hs) = apply_diff-IsLedger ops op.old_end op.new_end w1 s st.ledger in
      (
        w2,
        rw e e',
        l',
        hs
            ∙ ap (λ xs. xs ++ drop op.new_end dhs) st.line_hashes
            ∙ append_assoc (hashes w.new_lines) _ _
            ∙ ap (◌++◌ (hashes w.new_lines))
                (slice-append-drop op.new_start op.new_end dhs h3 ∙ ap (λ k. drop k dhs) nj),
      )
