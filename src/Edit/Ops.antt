-- ===== src/Edit/Ops.antt =====
-- crates/frances-edit/src/edit.rs: edit operations replayed on a file's lines.
pub mod Trace
pub mod Single
use frances.Prelude.{
  ℕ, zero, suc, ◌+◌, ◌-◌, ◌%◌, ◌^◌, List, [], ◌∷◌, ◌++◌, Option, none, some, length, get_elem?,
  take, drop, replicate, map, leb, ◌&&◌, if◌then◌else◌, Result, ok, panic, ◌>>=◌, expect,
}
use frances.Prelude.Int.{ℤ, pos, negsuc, ◌+ℤ◌, ◌-ℤ◌}
use frances.Text.{Text}
use frances.Edit.Anchor.{Anchor}
use frances.Edit.State.{FileAnchorState, find_anchor}
use frances.Edit.Reconcile.{Outcome}

pub data EditOp : Type 0 where
  insert_after : Anchor → List Text → EditOp
  insert_before : Anchor → List Text → EditOp
  replace : Anchor → Anchor → List Text → EditOp

pub data LineOrigin : Type 0 where
  carried : ℕ → LineOrigin
  inserted : LineOrigin

pub record Draft : Type 0 where
  pub out : List Text
  pub origins : List LineOrigin
  pub offsets : List ℤ

-- `Vec::splice(start..end, with)`, which panics on a range that is no range of the vector.
abbrev pub splice : {A : Type 0} → List A → ℕ → ℕ → List A → Outcome (List A)
splice xs start end with_items =
    if leb start end && leb end (length xs)
    then ok (take start xs ++ (with_items ++ drop end xs))
    else panic

-- The offsets from index `k` on, shifted.
unfoldable pub shift_from : ℕ → ℤ → List ℤ → List ℤ
shift_from k delta [] = []
shift_from zero delta (o ∷ os) = (o +ℤ delta) ∷ shift_from zero delta os
shift_from (suc k) delta (o ∷ os) = o ∷ shift_from k delta os

unfoldable pub shift_after : List ℤ → ℕ → ℤ → List ℤ
unfolding shift_from ◌+ℤ◌
shift_after offsets boundary delta = shift_from (boundary + 1) delta offsets

-- `(orig as i64 + offsets[orig]) as usize`: a negative sum becomes an index past every end, on which
-- the splice panics.
abbrev pub as_usize : ℤ → Outcome ℕ
as_usize (pos n) = ok n
as_usize (negsuc n) = panic

unfoldable pub draft_idx : List ℤ → ℕ → Outcome ℕ
unfolding ◌+ℤ◌
draft_idx offsets orig = do offset ← expect (get_elem? offsets orig); as_usize (pos orig +ℤ offset)

unfoldable pub splice_in : Draft → ℕ → List Text → Outcome Draft
splice_in d at lines = do
  out ← splice d.out at at lines
  origins ← splice d.origins at at (replicate (length lines) inserted)
  ok (record { out = out; origins = origins; offsets = d.offsets })

-- `to_draft - from_draft` panics below zero.
abbrev pub checked_sub : ℕ → ℕ → Outcome ℕ
checked_sub a b = if leb b a then ok (a - b) else panic

unfoldable pub apply_op : FileAnchorState → Draft → EditOp → Outcome Draft
unfolding draft_idx splice_in shift_after ◌-ℤ◌
apply_op original d (insert_after pin lines) = do
  orig ← expect (find_anchor original pin)
  at ← draft_idx d.offsets orig
  d' ← splice_in d (at + 1) lines
  ok (record d' { offsets = shift_after d'.offsets orig (pos (length lines)) })
apply_op original d (insert_before pin lines) = do
  orig ← expect (find_anchor original pin)
  at ← draft_idx d.offsets orig
  d' ← splice_in d at lines
  ok (record d' { offsets = shift_from orig (pos (length lines)) d'.offsets })
apply_op original d (replace from to lines) = do
  from_orig ← expect (find_anchor original from)
  to_orig ← expect (find_anchor original to)
  from_draft ← draft_idx d.offsets from_orig
  to_draft ← draft_idx d.offsets to_orig
  span ← checked_sub to_draft from_draft
  out ← splice d.out from_draft (to_draft + 1) lines
  origins ← splice d.origins from_draft (to_draft + 1) (replicate (length lines) inserted)
  ok (record {
    out = out;
    origins = origins;
    offsets = shift_after d.offsets to_orig (pos (length lines) -ℤ pos (span + 1));
  })

unfoldable pub apply_all : FileAnchorState → Draft → List EditOp → Outcome Draft
unfolding apply_op
apply_all original d [] = ok d
apply_all original d (op ∷ ops) = do d' ← apply_op original d op; apply_all original d' ops

-- The origins `k ..` of the lines from index `k` on.
abbrev pub carried_from : ℕ → List Text → List LineOrigin
carried_from k [] = []
carried_from k (l ∷ ls) = carried k ∷ carried_from (suc k) ls

-- The number of lines is cast to u32.
unfoldable pub start_draft : List Text → Draft
start_draft lines = record {
  out = lines;
  origins = carried_from 0 (take (length lines % 2 ^ 32) lines);
  offsets = replicate (length lines) (pos 0);
}

unfoldable pub apply_ops :
    FileAnchorState → List Text → List EditOp → Outcome (List Text × List LineOrigin)
unfolding apply_all start_draft
apply_ops original original_lines ops = do
  d ← apply_all original (start_draft original_lines) ops
  ok (d.out, d.origins)
