-- ===== src/Edit/Session/WholeFile.antt =====
-- crates/frances-edit/src/session/whole_file.rs: creating a file, and writing one anew.
use frances.Prelude.{[], some, Bool}
use frances.Prelude.Action.{Action, ◌>>=◌, ◌>>◌, return, lift}
use frances.Text.{Text}
use frances.Edit.State.{FilePath, FileAnchorState, anchors}
use frances.Edit.Engine.{open_file, infallible}
use frances.Edit.Render.{DiffRender, render_diff_block}
use frances.Edit.Session.Types.{
  EditError, new_file_exists, not_cached_for_overwrite, draft, IoError, already_exists, other_error,
  Surroundings, World, create_new,
}
use frances.Edit.Session.Working.{split_text_to_lines, on_store, on_disk, keep_open, cached_working}
use frances.Edit.Session.Anchored.{diff_context, apply_draft_edit, guard_pasteback}

unfoldable pub empty_state : FilePath → FileAnchorState
empty_state path = record { path = path; mtime_ns = 0; size = 0; content_digest = 0; lines = [] }

-- The writer's error when the file is there already gets a name of its own.
unfoldable pub create_error : FilePath → IoError → EditError
create_error path (already_exists message) = new_file_exists path
create_error path (other_error message) = draft (other_error message)

module _ {S W : Type 0} (env : Surroundings S W) where
  unfoldable pub apply_new : FilePath → Text → Action EditError (World S W) DiffRender
  unfolding empty_state create_error
  apply_new path text = do
    post ← on_disk (create_error path) (env.write path (split_text_to_lines text) create_new)
    working ←
        on_store
          (open_file env.hasher env.differ env.anchor_store path post.lines post.mtime_ns post.size)
    block ← lift (
        infallible (
          render_diff_block env.dict env.differ (empty_state path) [] working.state working.lines
            diff_context))
    keep_open path working
    return block

  -- All the file's anchors are hinted as deleted, so that none is carried over.
  unfoldable pub apply_overwrite : FilePath → Text → Bool → Action EditError (World S W) DiffRender
  unfolding guard_pasteback cached_working apply_draft_edit
  apply_overwrite path text bypass = do
    guard_pasteback env bypass text
    working ← cached_working path (not_cached_for_overwrite path)
    apply_draft_edit env path working (split_text_to_lines text)
        (some (record { deleted_anchors = anchors working.state.lines }))
