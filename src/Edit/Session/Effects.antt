-- ===== src/Edit/Session/Effects.antt =====
-- What an edit may do to the session: the loop guard stays clear, and the open files change only
-- when the edit succeeds.
use frances.Prelude.{
  ℕ, ◌≡◌, refl, subst, ◌∙◌, List, [], Option, none, some, Bool, true, false, Result, ok, err, panic,
}
use frances.Prelude.Action.{Action, after, ◌>>=◌, ◌>>◌, return, lift}
use frances.Text.{Text}
use frances.Edit.Anchor.{Anchor}
use frances.Edit.Ops
use frances.Edit.Ops.{EditOp}
use frances.Edit.State.{FilePath}
use frances.Edit.Reconcile.{EditHints, ReconcileOutcome}
use frances.Edit.LoopGuard.{clear}
use frances.Edit.Store.{StoreError}
use frances.Edit.Engine.{WorkingFile}
use frances.Edit.Render.{DiffRender}
use frances.Edit.Session.Types.{
  EditError, IoError, LlmEdit, replace_lines, replace_all, insert_after, insert_before, new_file,
  overwrite, Written, Surroundings, World,
}
use frances.Edit.Session.Working.{on_store, on_disk, keep_open, cached_working, split_text_to_lines}
use frances.Edit.Session.Anchored.{
  PinPosition, finish_edit, load_used, apply_line_edit, apply_draft_edit, guard_pasteback,
  apply_replace, apply_pin_insert, write_replaced, apply_replace_all,
}
use frances.Edit.Session.WholeFile.{apply_new, apply_overwrite}
use frances.Edit.Session.Dispatch.{dispatch, edit}

module _ {S W : Type 0} where
  -- The session after a call, from the one before: nothing changed.
  abbrev IsKept : World S W → World S W → Type 0
  IsKept w t = (t.loop_set ≡ w.loop_set) × (t.open_files ≡ w.open_files)

  record IsQuiet {A : Type 0} (m : Action EditError (World S W) A) : Type 0 where
    pub quiet : (w : World S W) → IsKept w (m w).1

  -- The loop guard unchanged, and the open files when there is an error.
  abbrev IsSafeRun : {A : Type 0} → World S W → Result EditError A × World S W → Type 0
  IsSafeRun w (ok a, t) = (t.loop_set ≡ w.loop_set)
  IsSafeRun w (err e, t) = IsKept w t
  IsSafeRun w (panic, t) = (t.loop_set ≡ w.loop_set)

  record IsSafe {A : Type 0} (m : Action EditError (World S W) A) : Type 0 where
    pub safe : (w : World S W) → IsSafeRun w (m w)

  safe_after :
      {B : Type 0} (w s : World S W) (r : Result EditError B × World S W)
      → IsKept w s
      → IsSafeRun s r
      → IsSafeRun w r
  safe_after w s (ok a, t) k h = h ∙ k.0
  safe_after w s (err e, t) k h = (h.0 ∙ k.0, h.1 ∙ k.1)
  safe_after w s (panic, t) k h = h ∙ k.0

  after-IsSafe :
      {A B : Type 0} (w : World S W) (r : Result EditError A × World S W)
      (f : A → Action EditError (World S W) B)
      → IsKept w r.1
      → ((a : A) → IsSafe (f a))
      → IsSafeRun w (after r f)
  after-IsSafe w (ok a, s) f k h = safe_after w s (f a s) k ((h a).safe s)
  after-IsSafe w (err e, s) f k h = k
  after-IsSafe w (panic, s) f k h = k.0

  >>=-IsSafe :
      {A B : Type 0} (m : Action EditError (World S W) A) (f : A → Action EditError (World S W) B)
      → IsQuiet m
      → ((a : A) → IsSafe (f a))
      → IsSafe (m >>= f)
  unfolding ◌>>=◌
  >>=-IsSafe m f q h = record { safe = λ w. after-IsSafe w (m w) f (q.quiet w) h }

  after-IsQuiet :
      {A B : Type 0} (w : World S W) (r : Result EditError A × World S W)
      (f : A → Action EditError (World S W) B)
      → IsKept w r.1
      → ((a : A) → IsQuiet (f a))
      → IsKept w (after r f).1
  after-IsQuiet w (ok a, s) f k h = (((h a).quiet s).0 ∙ k.0, ((h a).quiet s).1 ∙ k.1)
  after-IsQuiet w (err e, s) f k h = k
  after-IsQuiet w (panic, s) f k h = k

  >>=-IsQuiet :
      {A B : Type 0} (m : Action EditError (World S W) A) (f : A → Action EditError (World S W) B)
      → IsQuiet m
      → ((a : A) → IsQuiet (f a))
      → IsQuiet (m >>= f)
  unfolding ◌>>=◌
  >>=-IsQuiet m f q h = record { quiet = λ w. after-IsQuiet w (m w) f (q.quiet w) h }

  >>-IsSafe :
      {A B : Type 0} (m : Action EditError (World S W) A) (k : Action EditError (World S W) B)
      → IsQuiet m
      → IsSafe k
      → IsSafe (m >> k)
  unfolding ◌>>◌
  >>-IsSafe m k q h = >>=-IsSafe m (λ _. k) q λ _. h

  lift-IsQuiet : {A : Type 0} (r : Result EditError A) → IsQuiet (lift r)
  lift-IsQuiet r = record { quiet = λ w. (refl, refl) }

  on_store-IsQuiet : {A : Type 0} (m : Action StoreError S A) → IsQuiet (on_store m)
  on_store-IsQuiet m = record { quiet = λ w. (refl, refl) }

  on_disk-IsQuiet :
      {A : Type 0} (f : IoError → EditError) (m : Action IoError W A) → IsQuiet (on_disk f m)
  on_disk-IsQuiet f m = record { quiet = λ w. (refl, refl) }

  cached_working-IsQuiet : (path : FilePath) (e : EditError) → IsQuiet (cached_working path e)
  unfolding cached_working
  cached_working-IsQuiet path e = record { quiet = λ w. (refl, refl) }

  -- The file is kept open as the last step, which does not fail.
  keep_open-IsSafe :
      {A : Type 0} (path : FilePath) (f : WorkingFile) (a : A)
      → IsSafe (keep_open path f >> return a)
  unfolding ◌>>◌ ◌>>=◌
  keep_open-IsSafe path f a = record { safe = λ w. refl }

  module _ (env : Surroundings S W) where
    finish_edit-IsSafe :
        (path : FilePath) (working : WorkingFile) (o : ReconcileOutcome) (gone : List Anchor)
        (post : Written)
        → IsSafe (finish_edit env path working o gone post)
    unfolding finish_edit
    finish_edit-IsSafe path working o gone post =
        >>-IsSafe _ _ (on_store-IsQuiet _)
          (>>=-IsSafe _ _ (lift-IsQuiet _) λ block. keep_open-IsSafe path _ block)

    load_used-IsQuiet : (path : FilePath) → IsQuiet (load_used env path)
    load_used-IsQuiet path = >>=-IsQuiet _ _ (on_store-IsQuiet _) λ used. lift-IsQuiet (ok _)

    apply_draft_edit-IsSafe :
        (path : FilePath) (working : WorkingFile) (lines : List Text) (hints : Option EditHints)
        → IsSafe (apply_draft_edit env path working lines hints)
    unfolding apply_draft_edit
    apply_draft_edit-IsSafe path working lines hints = >>=-IsSafe _ _ (on_disk-IsQuiet _ _) λ post.
        >>=-IsSafe _ _ (load_used-IsQuiet path)
          λ pool. >>=-IsSafe _ _ (lift-IsQuiet _) λ (o, _). finish_edit-IsSafe path working o _ post

    apply_line_edit-IsSafe :
        (path : FilePath) (working : WorkingFile) (op : EditOp) (deleted : List Anchor)
        → IsSafe (apply_line_edit env path working op deleted)
    unfolding apply_line_edit
    apply_line_edit-IsSafe path working op deleted = >>=-IsSafe _ _ (lift-IsQuiet _) λ drafted.
        >>=-IsSafe _ _ (on_disk-IsQuiet _ _) λ post. >>=-IsSafe _ _ (load_used-IsQuiet path) λ pool.
          >>=-IsSafe _ _ (lift-IsQuiet _) λ entries.
            >>=-IsSafe _ _ (lift-IsQuiet _) λ (o, _). finish_edit-IsSafe path working o _ post

    guard_pasteback-IsQuiet :
        (bypass : Bool) (text : Text) → IsQuiet (guard_pasteback env bypass text)
    unfolding guard_pasteback
    guard_pasteback-IsQuiet true text = lift-IsQuiet (ok tt)
    guard_pasteback-IsQuiet false text = >>=-IsQuiet _ _ (lift-IsQuiet _) λ found. lift-IsQuiet _

    apply_replace-IsSafe :
        (path : FilePath) (anchor end_anchor text : Text) (bypass : Bool)
        → IsSafe (apply_replace env path anchor end_anchor text bypass)
    unfolding apply_replace
    apply_replace-IsSafe path anchor end_anchor text bypass =
        >>-IsSafe _ _ (guard_pasteback-IsQuiet bypass text) (
          >>=-IsSafe _ _ (cached_working-IsQuiet path _) λ working.
            >>=-IsSafe _ _ (lift-IsQuiet _) λ from. >>=-IsSafe _ _ (lift-IsQuiet _) λ to.
              >>-IsSafe _ _ (lift-IsQuiet _) (
                >>=-IsSafe _ _ (lift-IsQuiet _) λ gone.
                  apply_line_edit-IsSafe path working
                    (Ops.replace from.0 to.0 (split_text_to_lines text)) _))

    apply_pin_insert-IsSafe :
        (path : FilePath) (anchor text : Text) (position : PinPosition) (bypass : Bool)
        → IsSafe (apply_pin_insert env path anchor text position bypass)
    unfolding apply_pin_insert
    apply_pin_insert-IsSafe path anchor text position bypass =
        >>-IsSafe _ _ (guard_pasteback-IsQuiet bypass text) (
          >>=-IsSafe _ _ (cached_working-IsQuiet path _) λ working.
            >>=-IsSafe _ _ (lift-IsQuiet _) λ pin. apply_line_edit-IsSafe path working _ [])

    write_replaced-IsSafe :
        (path : FilePath) (working : WorkingFile) (replaced : Option Text)
        → IsSafe (write_replaced env path working replaced)
    unfolding write_replaced
    write_replaced-IsSafe path working none = record { safe = λ w. refl }
    write_replaced-IsSafe path working (some text) = apply_draft_edit-IsSafe path working _ none

    apply_replace_all-IsSafe :
        (path : FilePath) (find replacement : Text) (count : Option ℕ)
        → IsSafe (apply_replace_all env path find replacement count)
    unfolding apply_replace_all
    apply_replace_all-IsSafe path find replacement count =
        >>=-IsSafe _ _ (cached_working-IsQuiet path _) λ working.
          >>=-IsSafe _ _ (lift-IsQuiet _)
            λ re. >>-IsSafe _ _ (lift-IsQuiet _) (write_replaced-IsSafe path working _)

    apply_new-IsSafe : (path : FilePath) (text : Text) → IsSafe (apply_new env path text)
    unfolding apply_new
    apply_new-IsSafe path text = >>=-IsSafe _ _ (on_disk-IsQuiet _ _) λ post.
        >>=-IsSafe _ _ (on_store-IsQuiet _)
          λ working. >>=-IsSafe _ _ (lift-IsQuiet _) λ block. keep_open-IsSafe path _ block

    apply_overwrite-IsSafe :
        (path : FilePath) (text : Text) (bypass : Bool)
        → IsSafe (apply_overwrite env path text bypass)
    unfolding apply_overwrite
    apply_overwrite-IsSafe path text bypass = >>-IsSafe _ _ (guard_pasteback-IsQuiet bypass text) (
        >>=-IsSafe _ _ (cached_working-IsQuiet path _)
          λ working. apply_draft_edit-IsSafe path working _ _)

    dispatch-IsSafe : (e : LlmEdit) → IsSafe (dispatch env e)
    unfolding dispatch
    dispatch-IsSafe (new_file path text) = apply_new-IsSafe path text
    dispatch-IsSafe (overwrite path text bypass) = apply_overwrite-IsSafe path text bypass
    dispatch-IsSafe (replace_lines path anchor end_anchor text bypass) =
        apply_replace-IsSafe path anchor end_anchor text bypass
    dispatch-IsSafe (replace_all path find replacement count) =
        apply_replace_all-IsSafe path find replacement count
    dispatch-IsSafe (insert_after path anchor text bypass) =
        apply_pin_insert-IsSafe path anchor text _ bypass
    dispatch-IsSafe (insert_before path anchor text bypass) =
        apply_pin_insert-IsSafe path anchor text _ bypass

    loop_set_of :
        (w : World S W) (r : Result EditError DiffRender × World S W)
        → IsSafeRun w r
        → r.1.loop_set ≡ w.loop_set
    loop_set_of w (ok a, t) h = h
    loop_set_of w (err e, t) h = h.0
    loop_set_of w (panic, t) h = h

    -- After an edit the loop guard is empty, whether the edit has succeeded or not.
    pub edit-clears : (e : LlmEdit) (w : World S W) → (edit env e w).1.loop_set ≡ []
    unfolding edit clear
    edit-clears e w = loop_set_of (record w { loop_set = [] }) _ ((dispatch-IsSafe e).safe _)

    -- An edit that fails leaves the open files as they were.
    pub edit-err :
        (e : LlmEdit) (w t : World S W) (error : EditError)
        → edit env e w ≡ (err error, t)
        → t.open_files ≡ w.open_files
    unfolding edit
    edit-err e w t error h =
        (subst (λ r. IsSafeRun (record w { loop_set = clear w.loop_set }) r) h
          ((dispatch-IsSafe e).safe (record w { loop_set = clear w.loop_set }))).1
