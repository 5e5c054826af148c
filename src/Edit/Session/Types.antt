-- ===== src/Edit/Session/Types.antt =====
-- crates/frances-edit/src/session/types.rs, and the parts of session/mod.rs that the edits share.
use frances.Prelude.{ℕ, List, Option, Bool, Result}
use frances.Prelude.Action.{Action}
use frances.Text.{Text}
use frances.Anchors.Hash.{Hasher}
use frances.Edit.Anchor.{AnchorParseError}
use frances.Edit.LoopGuard.{LoopSet}
use frances.Edit.State.{FilePath}
use frances.Edit.Diff.{Differ}
use frances.Edit.Store.{AnchorStore, StoreError}
use frances.Edit.Engine.{WorkingFile}

-- The last argument of all but `new_file` and `replace_all` is `bypass_anchor_guard`.
pub data LlmEdit : Type 0 where
  -- path, anchor, end_anchor, text
  replace_lines : FilePath → Text → Text → Text → Bool → LlmEdit
  -- path, find, replacement, count
  replace_all : FilePath → Text → Text → Option ℕ → LlmEdit
  -- path, anchor, text
  insert_after insert_before : FilePath → Text → Text → Bool → LlmEdit
  -- path, text
  new_file : FilePath → Text → LlmEdit
  overwrite : FilePath → Text → Bool → LlmEdit

pub data WriteMode : Type 0 where
  create_new overwriting : WriteMode

-- `std::io::Error`, by the one kind that is told apart.
pub data IoError : Type 0 where
  already_exists other_error : Text → IoError

-- `regex::Error`
pub data RegexError : Type 0 where
  regex_error : Text → RegexError

-- `Truncated` keeps the whole text, which only its display cuts.
pub data EditError : Type 0 where
  anchor_not_found : Text → FilePath → EditError
  content_mismatch : Text → Text → Text → EditError
  malformed_anchor multiline_anchor anchor_pasteback_detected : Text → EditError
  bad_anchor_word : Text → AnchorParseError → EditError
  backwards_replace_range : ℕ → ℕ → EditError
  new_file_exists not_cached not_cached_for_overwrite : FilePath → EditError
  regex : RegexError → EditError
  replace_all_count_exceeded : ℕ → ℕ → EditError
  store : StoreError → EditError
  draft : IoError → EditError

-- The crate `regex`: `Regex::new`, the first group of `captures`, `find_iter(..).count()`, and
-- `replace_all`, where `none` is `Cow::Borrowed`.
pub record RegexCrate : Type 1 where
  pub Regex : Type 0
  pub new : Text → Result RegexError Regex
  pub first_group : Regex → Text → Option Text
  pub find_count : Regex → Text → ℕ
  pub replace_in : Regex → Text → Text → Option Text

-- What `DraftWriter::write` returns: the lines as they are on disk, `mtime_ns` and the size.
pub record Written : Type 0 where
  pub lines : List Text
  pub mtime_ns : ℕ
  pub size : ℕ

-- All that the session calls: `S` is the state of the store, `W` the one of the draft writer and
-- the file system behind it.
pub record Surroundings (S W : Type 0) : Type 1 where
  pub dict : List Text
  pub hasher : Hasher
  pub differ : Differ
  pub regex_crate : RegexCrate
  pub anchor_store : AnchorStore S
  pub write : FilePath → List Text → WriteMode → Action IoError W Written

-- The session, with the states of the store and the writer that it changes.
pub record World (S W : Type 0) : Type 0 where
  pub stored : S
  pub disk : W
  pub open_files : List (FilePath × WorkingFile)
  pub loop_set : LoopSet
