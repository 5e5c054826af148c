-- ===== src/Edit/Store.antt =====
-- crates/frances-edit/src/store.rs: what the editor asks of the storage of anchors. The backends
-- differ; `Store.Fake` is the one in memory.
pub mod Fake
pub mod Reliable
use frances.Prelude.{ℕ, List, Option}
use frances.Prelude.Action.{Action}
use frances.Text.{Text}
use frances.Edit.Anchor.{Anchor}
use frances.Edit.State.{FilePath, FileAnchorState}

-- A boxed error; only its message is observed.
pub data StoreError : Type 0 where
  store_error : Text → StoreError

-- The trait, over the type of the store's state.
pub record AnchorStore (S : Type 0) : Type 0 where
  pub load : FilePath → Action StoreError S (Option FileAnchorState)
  pub save_meta : FilePath → ℕ → ℕ → ℕ → Action StoreError S (Unit {0})
  pub replace_file_lines : FilePath → FileAnchorState → Action StoreError S (Unit {0})
  pub used_anchors : FilePath → Action StoreError S (List Anchor)
  pub tombstone : FilePath → List Anchor → Action StoreError S (Unit {0})
  pub clear_tombstones : Action StoreError S (Unit {0})
