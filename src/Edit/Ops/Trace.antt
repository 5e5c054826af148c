-- ===== src/Edit/Ops/Trace.antt =====
-- The origins that `apply_ops` returns tell the truth, for every list of operations.
use frances.Prelude.{
  ok_injective, ◌<◌, ◌%◌, ◌^◌, subst, append_assoc, length-append, ℕ, zero, suc, ◌+◌, ◌≤◌, ◌≡◌,
  refl, sym, ◌∙◌, List, [], ◌∷◌, ◌++◌, some, length, get_elem?, take, drop, replicate, leb, ◌&&◌,
  arith, ok, >>=-eq-ok, expect, Bool-cases, inl, inr,
}
use frances.Text.{Text}
use frances.Edit.State.{FileAnchorState, find_anchor}
use frances.Edit.Ops.{
  EditOp, insert_after, insert_before, replace, LineOrigin, carried, inserted, Draft, splice,
  splice_in, draft_idx, apply_op, apply_all, carried_from, start_draft, apply_ops, checked_sub,
}

-- Line by line: a carried line is the original's at its index, and the indices grow, from `lo` on.
abbrev pub IsTraced : List Text → ℕ → List Text → List LineOrigin → Type 0
IsTraced original lo [] [] = Unit {0}
IsTraced original lo [] (o ∷ os) = ⊥
IsTraced original lo (l ∷ ls) [] = ⊥
IsTraced original lo (l ∷ ls) (carried i ∷ os) =
    (lo ≤ i) × (get_elem? original i ≡ some l) × IsTraced original (suc i) ls os
IsTraced original lo (l ∷ ls) (inserted ∷ os) = IsTraced original lo ls os

get_elem?-append :
    (front : List Text) (l : Text) (ls : List Text)
    → get_elem? (front ++ (l ∷ ls)) (length front) ≡ some l
get_elem?-append [] l ls = refl
get_elem?-append (f ∷ fs) l ls = get_elem?-append fs l ls

add_one : (n : ℕ) → n + 1 ≡ suc n
add_one n = omega arith

splice_inv :
    {A : Type 0} (xs : List A) (a b : ℕ) (ws ys : List A)
    → splice xs a b ws ≡ ok ys
    → (a ≤ b) × (ys ≡ take a xs ++ (ws ++ drop b xs))
splice_inv xs a b ws ys h = elim (Bool-cases (leb a b && leb b (length xs))) [
  | inl t ↦ (ground (arith, t), ok_injective (sym (rw t at h)))
  | inr f ↦ absurd (cc (rw f at h))
]

module _ (original : List Text) where
  weaken :
      (lo hi : ℕ) (ls : List Text) (os : List LineOrigin)
      → lo ≤ hi
      → IsTraced original hi ls os
      → IsTraced original lo ls os
  weaken lo hi [] [] h t = tt
  weaken lo hi [] (o ∷ os) h t = absurd t
  weaken lo hi (l ∷ ls) [] h t = absurd t
  weaken lo hi (l ∷ ls) (carried i ∷ os) h t = (omega arith, t.1, t.2)
  weaken lo hi (l ∷ ls) (inserted ∷ os) h t = weaken lo hi ls os h t

  drop-IsTraced :
      (lo n : ℕ) (ls : List Text) (os : List LineOrigin)
      → IsTraced original lo ls os
      → IsTraced original lo (drop n ls) (drop n os)
  drop-IsTraced lo zero ls os t = t
  drop-IsTraced lo (suc n) [] [] t = tt
  drop-IsTraced lo (suc n) [] (o ∷ os) t = absurd t
  drop-IsTraced lo (suc n) (l ∷ ls) [] t = absurd t
  drop-IsTraced lo (suc n) (l ∷ ls) (carried i ∷ os) t =
      weaken lo (suc i) (drop n ls) (drop n os) (omega arith) (drop-IsTraced (suc i) n ls os t.2)
  drop-IsTraced lo (suc n) (l ∷ ls) (inserted ∷ os) t = drop-IsTraced lo n ls os t

  insert-IsTraced :
      (lo : ℕ) (new ls : List Text) (os : List LineOrigin)
      → IsTraced original lo ls os
      → IsTraced original lo (new ++ ls) (replicate (length new) inserted ++ os)
  insert-IsTraced lo [] ls os t = t
  insert-IsTraced lo (n ∷ ns) ls os t = insert-IsTraced lo ns ls os t

  splice-IsTraced :
      (lo a b : ℕ) (new ls : List Text) (os : List LineOrigin)
      → a ≤ b
      → IsTraced original lo ls os
      → IsTraced original lo
          (take a ls ++ (new ++ drop b ls))
          (take a os ++ (replicate (length new) inserted ++ drop b os))
  splice-IsTraced lo zero b new ls os h t =
      insert-IsTraced lo new (drop b ls) (drop b os) (drop-IsTraced lo b ls os t)
  splice-IsTraced lo (suc a) zero new ls os h t = absurd (omega arith)
  splice-IsTraced lo (suc a) (suc b) new [] [] h t = insert-IsTraced lo new [] [] t
  splice-IsTraced lo (suc a) (suc b) new [] (o ∷ os) h t = absurd t
  splice-IsTraced lo (suc a) (suc b) new (l ∷ ls) [] h t = absurd t
  splice-IsTraced lo (suc a) (suc b) new (l ∷ ls) (carried i ∷ os) h t =
      (t.0, t.1, splice-IsTraced (suc i) a b new ls os (omega arith) t.2)
  splice-IsTraced lo (suc a) (suc b) new (l ∷ ls) (inserted ∷ os) h t =
      splice-IsTraced lo a b new ls os (omega arith) t

  start-IsTraced :
      (front rest : List Text)
      → original ≡ front ++ rest
      → IsTraced original (length front) rest (carried_from (length front) rest)
  start-IsTraced front [] e = tt
  start-IsTraced front (l ∷ ls) e = (
    omega arith,
    rw e (get_elem?-append front l ls),
    rw (length-append front (l ∷ []), add_one (length front)) at
        (start-IsTraced (front ++ (l ∷ [])) ls (e ∙ sym (append_assoc front (l ∷ []) ls))),
  )

  -- What the two lists of a draft say together.
  abbrev IsTracedDraft : Draft → Type 0
  IsTracedDraft d = IsTraced original 0 d.out d.origins

  both-IsTraced :
      (d : Draft) (a b : ℕ) (lines out : List Text) (origins : List LineOrigin)
      → splice d.out a b lines ≡ ok out
      → splice d.origins a b (replicate (length lines) inserted) ≡ ok origins
      → IsTracedDraft d
      → IsTraced original 0 out origins
  both-IsTraced d a b lines out origins e f t =
      let (h, eo) = splice_inv d.out a b lines out e in
      let (_, es) = splice_inv d.origins a b (replicate (length lines) inserted) origins f in
      rw (eo, es) (splice-IsTraced 0 a b lines d.out d.origins h t)

  splice_in-IsTraced :
      (d : Draft) (at : ℕ) (lines : List Text) (d' : Draft)
      → splice_in d at lines ≡ ok d'
      → IsTracedDraft d
      → IsTracedDraft d'
  unfolding splice_in
  splice_in-IsTraced d at lines d' h t =
      let (out, e, h₁) = >>=-eq-ok (splice d.out at at lines) _ h in
      let (origins, f, h₂) = >>=-eq-ok (splice d.origins at at _) _ h₁ in
      subst (λ x. IsTracedDraft x) (ok_injective h₂) (both-IsTraced d at at lines out origins e f t)

  -- The draft of each operation, whatever its new offsets.
  apply_op-IsTraced :
      (st : FileAnchorState) (d : Draft) (op : EditOp) (d' : Draft)
      → apply_op st d op ≡ ok d'
      → IsTracedDraft d
      → IsTracedDraft d'
  unfolding apply_op
  apply_op-IsTraced st d (insert_after pin lines) d' h t =
      let (orig, _, h₁) = >>=-eq-ok (expect (find_anchor st pin)) _ h in
      let (at, _, h₂) = >>=-eq-ok (draft_idx d.offsets orig) _ h₁ in
      let (e, s, h₃) = >>=-eq-ok (splice_in d (at + 1) lines) _ h₂ in
      subst IsTracedDraft (ok_injective h₃) (splice_in-IsTraced d (at + 1) lines e s t)
  apply_op-IsTraced st d (insert_before pin lines) d' h t =
      let (orig, _, h₁) = >>=-eq-ok (expect (find_anchor st pin)) _ h in
      let (at, _, h₂) = >>=-eq-ok (draft_idx d.offsets orig) _ h₁ in
      let (e, s, h₃) = >>=-eq-ok (splice_in d at lines) _ h₂ in
      subst IsTracedDraft (ok_injective h₃) (splice_in-IsTraced d at lines e s t)
  apply_op-IsTraced st d (replace from to lines) d' h t =
      let (i, _, h₁) = >>=-eq-ok (expect (find_anchor st from)) _ h in
      let (j, _, h₂) = >>=-eq-ok (expect (find_anchor st to)) _ h₁ in
      let (a, _, h₃) = >>=-eq-ok (draft_idx d.offsets i) _ h₂ in
      let (b, _, h₄) = >>=-eq-ok (draft_idx d.offsets j) _ h₃ in
      let (span, _, h₅) = >>=-eq-ok (checked_sub b a) _ h₄ in
      let (out, e, h₆) = >>=-eq-ok (splice d.out a (b + 1) lines) _ h₅ in
      let (origins, f, h₇) = >>=-eq-ok (splice d.origins a (b + 1) _) _ h₆ in
      subst IsTracedDraft (ok_injective h₇) (both-IsTraced d a (b + 1) lines out origins e f t)

  apply_all-IsTraced :
      (st : FileAnchorState) (ops : List EditOp) (d d' : Draft)
      → apply_all st d ops ≡ ok d'
      → IsTracedDraft d
      → IsTracedDraft d'
  unfolding apply_all
  apply_all-IsTraced st [] d d' h t = subst IsTracedDraft (ok_injective h) t
  apply_all-IsTraced st (op ∷ ops) d d' h t =
      let (e, s, h₁) = >>=-eq-ok (apply_op st d op) _ h in
      apply_all-IsTraced st ops e d' h₁ (apply_op-IsTraced st d op e s t)

take_all : (ls : List Text) → take (length ls) ls ≡ ls
take_all [] = refl
take_all (l ∷ ls) = rw (take_all ls)

mod_small : (n : ℕ) → n < 2 ^ 32 → n % 2 ^ 32 ≡ n
mod_small n h = omega arith

-- A u32 counts the lines, so all of them are carried at first.
pub carried_from-take :
    (lines : List Text)
    → length lines < 2 ^ 32
    → carried_from 0 (take (length lines % 2 ^ 32) lines) ≡ carried_from 0 lines
carried_from-take lines h = rw (mod_small (length lines) h, take_all lines)

-- Whenever `apply_ops` returns lines and origins, for fewer than 2^32 lines, they are of one length, each line of a carried
-- origin is the original line at that index, and the carried indices strictly grow.
pub apply_ops-IsTraced :
    (st : FileAnchorState) (lines : List Text) (ops : List EditOp) (out : List Text)
    (origins : List LineOrigin)
    → length lines < 2 ^ 32
    → apply_ops st lines ops ≡ ok (out, origins)
    → IsTraced lines 0 out origins
unfolding apply_ops start_draft
apply_ops-IsTraced st lines ops out origins small h =
    let (d, e, h₁) = >>=-eq-ok (apply_all st (start_draft lines) ops) _ h in
    let t =
      apply_all-IsTraced lines st ops _ d e
        (rw (carried_from-take lines small) (start-IsTraced lines [] lines refl)) in
    subst (λ r. IsTraced lines 0 r.0 r.1) (ok_injective h₁) t
