-- ===== src/Edit/Session/Dispatch.antt =====
-- crates/frances-edit/src/session/mod.rs: the entry point of all edits.
use frances.Prelude.Action.{Action}
use frances.Edit.LoopGuard.{clear}
use frances.Edit.Render.{DiffRender}
use frances.Edit.Session.Types.{
  EditError, LlmEdit, replace_lines, replace_all, insert_after, insert_before, new_file, overwrite,
  Surroundings, World,
}
use frances.Edit.Session.Anchored.{
  before, after, apply_replace, apply_replace_all, apply_pin_insert,
}
use frances.Edit.Session.WholeFile.{apply_new, apply_overwrite}

module _ {S W : Type 0} (env : Surroundings S W) where
  unfoldable pub dispatch : LlmEdit → Action EditError (World S W) DiffRender
  dispatch (new_file path text) = apply_new env path text
  dispatch (overwrite path text bypass) = apply_overwrite env path text bypass
  dispatch (replace_lines path anchor end_anchor text bypass) =
      apply_replace env path anchor end_anchor text bypass
  dispatch (replace_all path find replacement count) =
      apply_replace_all env path find replacement count
  dispatch (insert_after path anchor text bypass) =
      apply_pin_insert env path anchor text after bypass
  dispatch (insert_before path anchor text bypass) =
      apply_pin_insert env path anchor text before bypass

  -- The loop guard is cleared up front, so also when the edit fails.
  unfoldable pub edit : LlmEdit → Action EditError (World S W) DiffRender
  unfolding dispatch clear
  edit e w = dispatch e (record w { loop_set = clear w.loop_set })
