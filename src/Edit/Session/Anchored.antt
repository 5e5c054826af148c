-- ===== src/Edit/Session/Anchored.antt =====
-- crates/frances-edit/src/session/anchored.rs: edits at anchors, and by a regular expression.
use frances.Prelude.{
  ℕ, ◌+◌, List, [], ◌∷◌, ◌++◌, Option, none, some, Bool, true, false, not, ltb, if◌then◌else◌,
  get_elem?, Result, ok, err, fail_if, map_err, expect,
}
use frances.Prelude
use frances.Prelude.Action.{Action, ◌>>=◌, ◌>>◌, return, lift}
use frances.Text.{Text, codes, join}
use frances.Anchors.Hash.{hash_lines}
use frances.Edit.Anchor.{Anchor}
use frances.Edit.Pool.{Pool, from_used, mint}
use frances.Edit.State.{FilePath, LineEntry, FileAnchorState, content_digest, anchors}
use frances.Edit.Diff.{range_of}
use frances.Edit.Ops.{
  EditOp, insert_after, insert_before, replace, LineOrigin, carried, inserted, apply_ops,
}
use frances.Edit.Reconcile.{Outcome, EditHints, ReconcileOutcome, reconcile}
use frances.Edit.Engine.{WorkingFile, commit, infallible}
use frances.Edit.Render.{DiffRender, render_diff_block}
use frances.Edit.Session.Types.{
  EditError, anchor_pasteback_detected, backwards_replace_range, not_cached, regex,
  replace_all_count_exceeded, draft, RegexCrate, Surroundings, World, Written, overwriting,
}
use frances.Edit.Session.Working.{
  newline, split_text_to_lines, detect_anchor_pasteback, resolve_anchor, on_store, on_disk,
  keep_open, cached_working,
}

pub data PinPosition : Type 0 where
  before after : PinPosition

abbrev pub diff_context : ℕ
diff_context = 2

-- The entries of the draft: a carried line keeps its anchor, an inserted one gets a fresh one.
unfoldable pub draft_entries :
    List LineEntry → List LineOrigin → List ℕ → Pool → Outcome (List LineEntry × Pool)
draft_entries old [] hashes pool = ok ([], pool)
draft_entries old (o ∷ os) [] pool = ok ([], pool)
draft_entries old (carried i ∷ os) (h ∷ hs) pool = Prelude.◌>>=◌ (expect (get_elem? old i)) λ le.
    Prelude.◌>>=◌ (draft_entries old os hs pool)
      λ (rest, pool'). ok (record { hash = h; anchor = le.anchor } ∷ rest, pool')
draft_entries old (inserted ∷ os) (h ∷ hs) pool =
    let (anchor, pool₁) = mint pool in
    Prelude.◌>>=◌ (draft_entries old os hs pool₁)
      λ (rest, pool'). ok (record { hash = h; anchor = anchor } ∷ rest, pool')

-- The cap on the number of matches.
unfoldable pub check_count :
    (R : RegexCrate) → R.Regex → Text → Option ℕ → Result EditError (Unit {0})
check_count R re content none = ok tt
check_count R re content (some limit) =
    fail_if (ltb limit (R.find_count re content))
      (replace_all_count_exceeded (R.find_count re content) limit)

module _ {S W : Type 0} (env : Surroundings S W) where
  -- The end of every edit: store the outcome, render the change, and go on with the new file.
  unfoldable pub finish_edit :
      FilePath
      → WorkingFile
      → ReconcileOutcome
      → List Anchor
      → Written
      → Action EditError (World S W) DiffRender
  finish_edit path working outcome tombstones post = do
    on_store (
        commit env.hasher env.differ env.anchor_store path outcome.state post.mtime_ns post.size
          tombstones)
    block ← lift (
        infallible (
          render_diff_block env.dict env.differ working.state working.lines outcome.state post.lines
            diff_context))
    keep_open path (record { path = path; state = outcome.state; lines = post.lines })
    return block

  abbrev pub load_used : FilePath → Action EditError (World S W) Pool
  load_used path = do used ← on_store (env.anchor_store.used_anchors path); return (from_used used)

  unfoldable pub apply_line_edit :
      FilePath → WorkingFile → EditOp → List Anchor → Action EditError (World S W) DiffRender
  unfolding finish_edit draft_entries apply_ops reconcile
  apply_line_edit path working op deleted = do
    (draft_lines, origins) ← lift (infallible (apply_ops working.state working.lines (op ∷ [])))
    post ← on_disk draft (env.write path draft_lines overwriting)
    pool ← load_used path
    let draft_hashes = hash_lines env.hasher draft_lines
    (entries, pool') ←
        lift (infallible (draft_entries working.state.lines origins draft_hashes pool))
    let draft_state : FileAnchorState = record {
      path = path;
      mtime_ns = post.mtime_ns;
      size = post.size;
      content_digest = content_digest env.hasher draft_hashes;
      lines = entries;
    }
    (outcome, _) ←
        lift (infallible (reconcile env.hasher env.differ draft_state post.lines pool' none))
    finish_edit path working outcome (deleted ++ outcome.tombstoned) post

  unfoldable pub apply_draft_edit :
      FilePath
      → WorkingFile
      → List Text
      → Option EditHints
      → Action EditError (World S W) DiffRender
  unfolding finish_edit
  apply_draft_edit path working draft_lines hints = do
    post ← on_disk draft (env.write path draft_lines overwriting)
    pool ← load_used path
    (outcome, _) ←
        lift (infallible (reconcile env.hasher env.differ working.state post.lines pool hints))
    finish_edit path working outcome outcome.tombstoned post

  abbrev reject : Option Text → Result EditError (Unit {0})
  reject none = ok tt
  reject (some words) = err (anchor_pasteback_detected words)

  -- The guard against anchors pasted back into the text.
  unfoldable pub guard_pasteback : Bool → Text → Action EditError (World S W) (Unit {0})
  guard_pasteback true text = return tt
  guard_pasteback false text = do
    found ← lift (infallible (detect_anchor_pasteback env.regex_crate text))
    lift (reject found)

  unfoldable pub apply_replace :
      FilePath → Text → Text → Text → Bool → Action EditError (World S W) DiffRender
  unfolding guard_pasteback cached_working apply_line_edit
  apply_replace path anchor end_anchor text bypass = do
    guard_pasteback bypass text
    working ← cached_working path (not_cached path)
    (from, from_idx) ← lift (resolve_anchor env.dict anchor working.state working.lines path)
    (to, to_idx) ← lift (resolve_anchor env.dict end_anchor working.state working.lines path)
    lift (fail_if (ltb to_idx from_idx) (backwards_replace_range from_idx to_idx))
    gone ← lift (expect (range_of working.state.lines from_idx (to_idx + 1)))
    apply_line_edit path working (replace from to (split_text_to_lines text)) (anchors gone)

  unfoldable pub apply_pin_insert :
      FilePath → Text → Text → PinPosition → Bool → Action EditError (World S W) DiffRender
  unfolding guard_pasteback cached_working apply_line_edit
  apply_pin_insert path anchor text position bypass = do
    guard_pasteback bypass text
    working ← cached_working path (not_cached path)
    (pin, _) ← lift (resolve_anchor env.dict anchor working.state working.lines path)
    let lines = split_text_to_lines text
    apply_line_edit path working
        (elim position [ after ↦ insert_after pin lines | before ↦ insert_before pin lines ]) []

  abbrev no_match : FilePath → DiffRender
  no_match path = record { text = codes "No changes: regex matched 0 times in " ++ path; ops = [] }

  -- `replace_all` borrows its input when nothing matched, and then nothing is written.
  unfoldable pub write_replaced :
      FilePath → WorkingFile → Option Text → Action EditError (World S W) DiffRender
  unfolding apply_draft_edit
  write_replaced path working none = return (no_match path)
  write_replaced path working (some replaced) =
      apply_draft_edit path working (split_text_to_lines replaced) none

  unfoldable pub apply_replace_all :
      FilePath → Text → Text → Option ℕ → Action EditError (World S W) DiffRender
  unfolding cached_working check_count write_replaced
  apply_replace_all path find replacement count = do
    working ← cached_working path (not_cached path)
    re ← lift (map_err regex (RegexCrate.new env.regex_crate find))
    let content = join (newline ∷ []) working.lines
    lift (check_count env.regex_crate re content count)
    write_replaced path working (RegexCrate.replace_in env.regex_crate re content replacement)
