-- ===== src/Edit/Ops/Single.antt =====
-- One operation, the way the editing session calls `apply_ops`.
use frances.Prelude.{
  ℕ, zero, suc, ◌+◌, ◌-◌, ◌^◌, ◌≤◌, ◌<◌, ◌≡◌, refl, ap, List, [], ◌∷◌, ◌++◌, some, length,
  get_elem?, take, drop, replicate, arith, ok,
}
use frances.Prelude.Int.{pos, ◌+ℤ◌}
use frances.Text.{Text}
use frances.Edit.State.{FileAnchorState, find_anchor}
use frances.Edit.Ops.Trace.{carried_from-take}
use frances.Edit.Ops.{
  EditOp, insert_after, insert_before, replace, LineOrigin, inserted, splice, splice_in,
  checked_sub, draft_idx, apply_op, apply_all, carried_from, start_draft, apply_ops,
}

abbrev pub new_lines : EditOp → List Text
new_lines (insert_after pin lines) = lines
new_lines (insert_before pin lines) = lines
new_lines (replace from to lines) = lines

-- The operation puts its lines in place of those from `a` up to `b`, of `n` lines in all.
abbrev pub IsSpan : FileAnchorState → ℕ → EditOp → ℕ → ℕ → Type 0
IsSpan st n (insert_after pin lines) a b =
    (i : ℕ) × (find_anchor st pin ≡ some i) × (i < n) × (a ≡ i + 1) × (b ≡ i + 1)
IsSpan st n (insert_before pin lines) a b = (find_anchor st pin ≡ some a) × (a < n) × (b ≡ a)
IsSpan st n (replace from to lines) a b =
    (j : ℕ) × (find_anchor st from ≡ some a)
    × (find_anchor st to ≡ some j)
    × (a ≤ j)
    × (j < n)
    × (b ≡ j + 1)

get_elem?-replicate : {A : Type 0} (n i : ℕ) (x : A) → i < n → get_elem? (replicate n x) i ≡ some x
get_elem?-replicate zero i x h = absurd (omega arith)
get_elem?-replicate (suc n) zero x h = refl
get_elem?-replicate (suc n) (suc i) x h = get_elem?-replicate n i x (omega arith)

length-carried_from : (k : ℕ) (ls : List Text) → length (carried_from k ls) ≡ length ls
length-carried_from k [] = refl
length-carried_from k (l ∷ ls) = ap suc (length-carried_from (suc k) ls)

-- Before any operation a line stands where it stood.
draft_idx-start : (n i : ℕ) → i < n → draft_idx (replicate n (pos 0)) i ≡ ok i
unfolding draft_idx ◌+ℤ◌
draft_idx-start n i h = rw (get_elem?-replicate n i (pos 0) h) (ground arith)

splice_ok :
    {A : Type 0} (xs : List A) (a b : ℕ) (ws : List A)
    → a ≤ b
    → b ≤ length xs
    → splice xs a b ws ≡ ok (take a xs ++ (ws ++ drop b xs))
splice_ok xs a b ws h k = ground arith

checked_sub_ok : (a b : ℕ) → b ≤ a → checked_sub a b ≡ ok (a - b)
checked_sub_ok a b h = ground arith

abbrev pub spliced : List Text → ℕ → ℕ → List Text → List Text × List LineOrigin
spliced lines a b new = (
  take a lines ++ (new ++ drop b lines),
  take a (carried_from 0 lines)
      ++ (replicate (length new) inserted ++ drop b (carried_from 0 lines)),
)

-- On fewer than 2^32 lines, a single operation whose anchors the file has, in order, does not panic: it puts the operation's
-- lines in place of its span, keeps all others, and the origins say so.
pub apply_ops-single :
    (st : FileAnchorState) (lines : List Text) (op : EditOp) (a b : ℕ)
    → length lines < 2 ^ 32
    → IsSpan st (length lines) op a b
    → apply_ops st lines (op ∷ []) ≡ ok (spliced lines a b (new_lines op))
unfolding apply_ops apply_all apply_op start_draft splice_in
apply_ops-single st lines (insert_after pin new) a b small (i, f, h, ea, eb) = rw (
  carried_from-take lines small,
  f,
  draft_idx-start (length lines) i h,
  splice_ok lines (i + 1) (i + 1) new (omega arith) (omega arith),
  splice_ok (carried_from 0 lines) (i + 1) (i + 1) (replicate (length new) inserted) (omega arith)
      (omega (arith, length-carried_from 0 lines)),
  ea,
  eb,
)
apply_ops-single st lines (insert_before pin new) a b small (f, h, eb) = rw (
  carried_from-take lines small,
  f,
  draft_idx-start (length lines) a h,
  splice_ok lines a a new (omega arith) (omega arith),
  splice_ok (carried_from 0 lines) a a (replicate (length new) inserted) (omega arith)
      (omega (arith, length-carried_from 0 lines)),
  eb,
)
apply_ops-single st lines (replace from to new) a b small (j, f, g, h, k, eb) = rw (
  carried_from-take lines small,
  f,
  g,
  draft_idx-start (length lines) a (omega arith),
  draft_idx-start (length lines) j k,
  checked_sub_ok j a h,
  splice_ok lines a (j + 1) new (omega arith) (omega arith),
  splice_ok (carried_from 0 lines) a (j + 1) (replicate (length new) inserted) (omega arith)
      (omega (arith, length-carried_from 0 lines)),
  eb,
)
