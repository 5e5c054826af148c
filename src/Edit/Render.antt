-- ===== src/Edit/Render.antt =====
-- crates/frances-edit/src/render.rs: a file, or a change of it, as lines with anchors.
use frances.Prelude.{
  ℕ, zero, suc, ◌+◌, ◌-◌, ◌%◌, ◌^◌, List, [], ◌∷◌, ◌++◌, Bool, true, false, length, get_elem?, leb,
  ltb, if◌then◌else◌, ok, err, panic, ◌>>=◌, expect, replicate,
}
use frances.Text.Decimal.{decimal}
use frances.Text.{Text}
use frances.Edit.Anchor.{Anchor, to_string}
use frances.Edit.State.{LineEntry, FileAnchorState, anchors}
use frances.Edit.Diff.{Differ, DiffTag, equal, delete, insert, replace}
use frances.Edit.Diff
use frances.Edit.Reconcile.{Outcome}

-- `'§'`
abbrev pub anchor_sep : ℕ
anchor_sep = 0xa7

abbrev newline : ℕ
newline = 0x0a

-- An entry of the structured diff.
pub data RenderOp : Type 0 where
  context : Text → ℕ → RenderOp
  added removed : Text → RenderOp

pub record DiffRender : Type 0 where
  pub text : Text
  pub ops : List RenderOp

-- `{line:4}`: numbers are aligned to the right.
unfoldable pub padded : ℕ → Text
unfolding decimal
padded n = replicate (4 - length (decimal n)) 0x20 ++ decimal n

module _ (dict : List Text) where
  -- An anchor whose words cannot be looked up panics.
  abbrev shown : Anchor → Outcome Text
  shown a = elim (to_string dict a) [ ok t ↦ ok t | err e ↦ panic | panic ↦ panic ]

  unfoldable pub render_lines : List LineEntry → List Text → Outcome Text
  render_lines [] lines = ok []
  render_lines (le ∷ les) [] = ok []
  render_lines (le ∷ les) (line ∷ lines) = do
    name ← shown le.anchor
    rest ← render_lines les lines
    ok (name ++ (anchor_sep ∷ line) ++ (newline ∷ rest))

  unfoldable pub render_file : FileAnchorState → List Text → Outcome Text
  unfolding render_lines
  render_file state lines = render_lines state.lines lines

  unfoldable pub write_line : Text → ℕ → Anchor → Text → ℕ → Outcome Text
  write_line out prefix anchor content line = do
    name ← shown anchor
    ok (
        out
        ++ (prefix ∷ 0x20 ∷ [])
        ++ padded line
        ++ (0x20 ∷ name)
        ++ (anchor_sep ∷ content)
        ++ (newline ∷ []))

  -- The two outputs, which the emitters add to.
  unfoldable pub emit : ℕ → RenderOp → DiffRender → Anchor → Text → ℕ → Outcome DiffRender
  unfolding write_line
  emit prefix op r anchor content line = do
    text ← write_line r.text prefix anchor content line
    ok (record { text = text; ops = r.ops ++ op ∷ [] })

  unfoldable pub emit_context : DiffRender → Anchor → Text → ℕ → Outcome DiffRender
  unfolding emit
  emit_context r a content line = emit 0x20 (context content (line % 2 ^ 32)) r a content line

  unfoldable pub emit_added : DiffRender → Anchor → Text → ℕ → Outcome DiffRender
  unfolding emit
  emit_added r a content line = emit 0x2b (added content) r a content line

  unfoldable pub emit_removed : DiffRender → Anchor → Text → ℕ → Outcome DiffRender
  unfolding emit
  emit_removed r a content line = emit 0x2d (removed content) r a content line

  -- A loop over `n` indices from `i` on; indexing out of bounds panics.
  unfoldable pub emit_range :
      (DiffRender → Anchor → Text → ℕ → Outcome DiffRender)
      → List Anchor
      → List Text
      → ℕ
      → ℕ
      → DiffRender
      → Outcome DiffRender
  emit_range f as_list lines i zero r = ok r
  emit_range f as_list lines i (suc n) r = do
    a ← expect (get_elem? as_list i)
    line ← expect (get_elem? lines i)
    r' ← f r a line (i + 1)
    emit_range f as_list lines (suc i) n r'

  module _ (pre_anchors post_anchors : List Anchor) (pre_lines post_lines : List Text)
      (around : ℕ) where
    -- `context.min(len)`, or nothing at the edge of the file.
    abbrev taken : Bool → ℕ → ℕ
    taken at_edge len = if at_edge then 0 else if leb around len then around else len

    unfoldable pub render_equal : Bool → Bool → Diff.DiffOp → DiffRender → Outcome DiffRender
    unfolding emit_range emit_context
    render_equal is_first is_last op r =
        let len = op.new_end - op.new_start in
        let take_start = taken is_first len in
        let take_end = taken is_last len in
        if leb len (take_start + take_end)
        then emit_range emit_context post_anchors post_lines op.new_start len r
        else (do
          r₁ ← emit_range emit_context post_anchors post_lines op.new_start take_start r
          let r₂ = if ltb 0 take_start then record r₁ { text = r₁.text ++ newline ∷ [] } else r₁
          emit_range emit_context post_anchors post_lines (op.new_end - take_end) take_end r₂)

    abbrev render_removed : Diff.DiffOp → DiffRender → Outcome DiffRender
    render_removed op r =
        emit_range emit_removed pre_anchors pre_lines op.old_start (op.old_end - op.old_start) r

    abbrev render_added : Diff.DiffOp → DiffRender → Outcome DiffRender
    render_added op r =
        emit_range emit_added post_anchors post_lines op.new_start (op.new_end - op.new_start) r

    unfoldable pub render_op : DiffTag → Bool → Bool → Diff.DiffOp → DiffRender → Outcome DiffRender
    unfolding render_equal emit_range emit_added emit_removed
    render_op equal is_first is_last op r = render_equal is_first is_last op r
    render_op delete is_first is_last op r = render_removed op r
    render_op insert is_first is_last op r = render_added op r
    render_op replace is_first is_last op r = do r' ← render_removed op r; render_added op r'

    unfoldable pub render_ops : Bool → List Diff.DiffOp → DiffRender → Outcome DiffRender
    unfolding render_op
    render_ops is_first [] r = ok r
    render_ops is_first (op ∷ []) r = render_op op.tag is_first true op r
    render_ops is_first (op ∷ next ∷ ops) r = do
      r' ← render_op op.tag is_first false op r
      render_ops false (next ∷ ops) r'

  unfoldable pub render_diff_block :
      Differ → FileAnchorState → List Text → FileAnchorState → List Text → ℕ → Outcome DiffRender
  unfolding render_ops
  render_diff_block D pre_state pre_lines post_state post_lines around =
      let pre_anchors = anchors pre_state.lines in
      let post_anchors = anchors post_state.lines in
      render_ops pre_anchors post_anchors pre_lines post_lines around true
        (D.diff_anchors pre_anchors post_anchors) (record { text = []; ops = [] })
