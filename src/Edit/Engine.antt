-- ===== src/Edit/Engine.antt =====
-- crates/frances-edit/src/engine.rs: opening a file's anchored state and storing it.
pub mod Minted
pub mod Opened
pub mod Opening
pub mod Open
use frances.Prelude.{
  ℕ, List, [], ◌∷◌, Option, none, some, ◌==◌, ◌&&◌, if◌then◌else◌, Result, ok, err, panic,
}
use frances.Prelude.Action.{Action, ◌>>=◌, ◌>>◌, return, lift}
use frances.Text.{Text, is_empty}
use frances.Anchors.Hash.{Hasher, hash_lines}
use frances.Edit.Anchor.{Anchor}
use frances.Edit.Pool.{Pool, from_used, mint}
use frances.Edit.State.{FilePath, LineEntry, FileAnchorState, content_digest}
use frances.Edit.Diff.{Differ}
use frances.Edit.Reconcile.{Outcome, reconcile}
use frances.Edit.Store.{AnchorStore, StoreError}

pub record WorkingFile : Type 0 where
  pub path : FilePath
  pub state : FileAnchorState
  pub lines : List Text

-- Code without an error of its own, called where there is one.
abbrev pub infallible : {E : Type 0} {A : Type 0} → Outcome A → Result E A
infallible (ok a) = ok a
infallible (err e) = absurd e
infallible panic = panic

-- One fresh anchor for each hash, in order.
unfoldable pub mint_lines : List ℕ → Pool → List LineEntry × Pool
mint_lines [] pool = ([], pool)
mint_lines (h ∷ hs) pool =
    let (anchor, pool₁) = mint pool in
    let (rest, pool₂) = mint_lines hs pool₁ in (record { hash = h; anchor = anchor } ∷ rest, pool₂)

module _ (H : Hasher) (D : Differ) {S : Type 0} (store : AnchorStore S) where
  unfoldable pub load_pool : FilePath → Action StoreError S Pool
  load_pool path = do used ← store.used_anchors path; return (from_used used)

  abbrev pub tombstone_any : FilePath → List Anchor → Action StoreError S (Unit {0})
  tombstone_any path gone = if is_empty gone then return tt else store.tombstone path gone

  unfoldable pub commit :
      FilePath → FileAnchorState → ℕ → ℕ → List Anchor → Action StoreError S (Unit {0})
  commit path state mtime_ns size tombstones = do
    store.replace_file_lines path (record state { mtime_ns = mtime_ns; size = size })
    tombstone_any path tombstones

  -- The file changed: its anchors are carried over to what is on disk.
  unfoldable pub open_changed :
      FileAnchorState → FilePath → List Text → ℕ → ℕ → Action StoreError S FileAnchorState
  unfolding load_pool
  open_changed c path on_disk_lines mtime_ns size = do
    pool ← load_pool path
    (r, _) ← lift (infallible (reconcile H D c on_disk_lines pool none))
    let new_state = record r.state { mtime_ns = mtime_ns; size = size }
    store.replace_file_lines path new_state
    tombstone_any path r.tombstoned
    return new_state

  -- The file is known, but its time or size differs.
  unfoldable pub open_drifted :
      FileAnchorState → FilePath → List Text → ℕ → ℕ → Action StoreError S FileAnchorState
  unfolding open_changed
  open_drifted c path on_disk_lines mtime_ns size =
      let digest = content_digest H (hash_lines H on_disk_lines) in
      if c.content_digest == digest
      then (do
        store.save_meta path mtime_ns size digest
        return (record c { mtime_ns = mtime_ns; size = size }))
      else open_changed c path on_disk_lines mtime_ns size

  -- The file is not known.
  unfoldable pub open_cold : FilePath → List Text → ℕ → ℕ → Action StoreError S FileAnchorState
  unfolding load_pool mint_lines
  open_cold path on_disk_lines mtime_ns size = do
    pool ← load_pool path
    let on_disk_hashes = hash_lines H on_disk_lines
    let new_state : FileAnchorState = record {
      path = path;
      mtime_ns = mtime_ns;
      size = size;
      content_digest = content_digest H on_disk_hashes;
      lines = (mint_lines on_disk_hashes pool).0;
    }
    store.replace_file_lines path new_state
    return new_state

  unfoldable pub open_state :
      Option FileAnchorState → FilePath → List Text → ℕ → ℕ → Action StoreError S FileAnchorState
  unfolding open_drifted open_cold
  open_state none path on_disk_lines mtime_ns size = open_cold path on_disk_lines mtime_ns size
  open_state (some c) path on_disk_lines mtime_ns size =
      if c.mtime_ns == mtime_ns && c.size == size
      then return c
      else open_drifted c path on_disk_lines mtime_ns size

  unfoldable pub open_file : FilePath → List Text → ℕ → ℕ → Action StoreError S WorkingFile
  unfolding open_state
  open_file path on_disk_lines mtime_ns size = do
    cached ← store.load path
    state ← open_state cached path on_disk_lines mtime_ns size
    return (record { path = path; state = state; lines = on_disk_lines })

  unfoldable pub commit_edits : Action StoreError S (Unit {0})
  commit_edits = store.clear_tombstones
