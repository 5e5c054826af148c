-- ===== src/Edit/Session/Working.antt =====
-- crates/frances-edit/src/session: reading files, and what the edits share.
use frances.Prelude.{
  ℕ, zero, suc, ◌+◌, List, [], ◌∷◌, ◌++◌, Option, none, some, Bool, true, false, not, ◌&&◌, ltb,
  ◌==◌, if◌then◌else◌, eq_list, length, get_elem?, Result, ok, err, panic, map_err, ok_or, fail_if,
  expect,
}
use frances.Prelude
use frances.Prelude.Dict.{lookup, insert}
use frances.Prelude.Action.{Action, ◌>>=◌, ◌>>◌, return, lift}
use frances.Text.{Text, codes, trim, is_empty, split, split_once, join}
use frances.Edit.Anchor.{Anchor, from_str}
use frances.Edit.LoopGuard.{LoopKey, LoopSet, record_key}
use frances.Edit.LoopGuard
use frances.Edit.State.{FilePath, FileAnchorState, find_anchor}
use frances.Edit.Store.{StoreError}
use frances.Edit.Engine.{WorkingFile, open_file, commit_edits, infallible}
use frances.Edit.Reconcile.{Outcome}
use frances.Edit.Render.{render_file, anchor_sep}
use frances.Edit.Session.Types.{
  EditError, anchor_not_found, content_mismatch, malformed_anchor, multiline_anchor,
  bad_anchor_word, store, IoError, RegexCrate, Surroundings, World,
}

abbrev pub newline : ℕ
newline = 0x0a

unfoldable pub split_text_to_lines : Text → List Text
split_text_to_lines text = split newline text

abbrev mem : List Text → Text → Bool
mem [] a = false
mem (b ∷ bs) a = if eq_list b a then true else mem bs a

-- `^([A-Z][\w-]*)§`
abbrev pub pasteback_pattern : Text
pasteback_pattern = codes "^([A-Z][\\w-]*)" ++ anchor_sep ∷ []

-- The variables of the loop of `detect_anchor_pasteback`.
pub record Scan : Type 0 where
  pub non_blank_lines : ℕ
  pub matches : ℕ
  pub anchors : List Text

module _ (R : RegexCrate) where
  open R use {Regex, new, first_group}

  -- The words seen are kept once, and at most 20 of them.
  abbrev add_word : List Text → Text → List Text
  add_word seen word =
      if ltb (length seen) 20 && not (mem seen word) then seen ++ word ∷ [] else seen

  unfoldable pub scan_line : Regex → Scan → Text → Scan
  scan_line re s line = if is_empty (trim line) then s else elim (first_group re line) [
    | some word ↦ record {
      non_blank_lines = s.non_blank_lines + 1;
      matches = s.matches + 1;
      anchors = add_word s.anchors word;
    }
    | none ↦ record s { non_blank_lines = s.non_blank_lines + 1 }
  ]

  unfoldable pub scan_lines : Regex → Scan → List Text → Scan
  unfolding scan_line
  scan_lines re s [] = s
  scan_lines re s (line ∷ lines) = scan_lines re (scan_line re s line) lines

  abbrev pub verdict : Scan → Option Text
  verdict s =
      if ltb 0 s.non_blank_lines && s.non_blank_lines == s.matches
      then some (join (codes ", ") s.anchors)
      else none

  -- `unwrap` panics on a pattern that does not compile.
  unfoldable pub detect_anchor_pasteback : Text → Outcome (Option Text)
  unfolding scan_lines
  detect_anchor_pasteback text = elim (new pasteback_pattern) [
    | ok re ↦ ok (
        verdict (
          scan_lines re (record { non_blank_lines = 0; matches = 0; anchors = [] })
            (split newline text)))
    | err e ↦ panic
    | panic ↦ panic
  ]

-- The content that a caller claims a line has, compared without the white space around it.
unfoldable pub resolve_anchor :
    List Text → Text → FileAnchorState → List Text → FilePath → Result EditError (Anchor × ℕ)
resolve_anchor dict field state lines path = elim (split_once newline field) [
  | some (first_line, _) ↦ err (multiline_anchor first_line)
  | none ↦
      Prelude.◌>>=◌ (ok_or (split_once anchor_sep field) (malformed_anchor field))
        λ (word, content).
          Prelude.◌>>=◌ (map_err (bad_anchor_word word) (from_str dict word)) λ anchor.
            Prelude.◌>>=◌ (ok_or (find_anchor state anchor) (anchor_not_found word path)) λ idx.
              Prelude.◌>>=◌ (expect (get_elem? lines idx)) λ actual.
                if eq_list (trim actual) (trim content)
                then ok (anchor, idx)
                else err (content_mismatch word actual content)
]

module _ {S W : Type 0} where
  -- Calls of the store and of the draft writer, from the session.
  abbrev pub on_store : {A : Type 0} → Action StoreError S A → Action EditError (World S W) A
  on_store m w = let (r, s) = m w.stored in (map_err store r, record w { stored = s })

  abbrev pub on_disk :
      {A : Type 0} → (IoError → EditError) → Action IoError W A → Action EditError (World S W) A
  on_disk f m w = let (r, d) = m w.disk in (map_err f r, record w { disk = d })

  -- `open_files.insert`
  abbrev pub keep_open : FilePath → WorkingFile → Action EditError (World S W) (Unit {0})
  keep_open path working w = (ok tt, record w { open_files = insert w.open_files path working })

  unfoldable pub cached_working : FilePath → EditError → Action EditError (World S W) WorkingFile
  unfolding lookup
  cached_working path missing w = (ok_or (lookup w.open_files path) missing, w)

  unfoldable pub is_loop : World S W → LoopKey → Bool
  is_loop w key = LoopGuard.contains w.loop_set key

  unfoldable pub record_loop : World S W → LoopKey → World S W
  record_loop w key = record w { loop_set = record_key w.loop_set key }

  module _ (env : Surroundings S W) where
    unfoldable pub read_file : FilePath → List Text → ℕ → ℕ → Action EditError (World S W) Text
    unfolding open_file render_file
    read_file path lines mtime_ns size = do
      working ← on_store (open_file env.hasher env.differ env.anchor_store path lines mtime_ns size)
      rendered ← lift (infallible (render_file env.dict working.state working.lines))
      keep_open path working
      return rendered

    unfoldable pub commit_session : Action EditError (World S W) (Unit {0})
    commit_session = on_store (commit_edits env.hasher env.differ env.anchor_store)
