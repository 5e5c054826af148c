-- ===== src/Edit/Store/Reliable.antt =====
-- What the editor relies on of a store of anchors whose calls succeed.
use frances.Prelude.{ℕ, ◌<◌, ◌^◌, ◌≡◌, List, ◌++◌, Option, some, length, ok}
use mathlib.Core.Option
use frances.Edit.Anchor.{Anchor}
use frances.Edit.Pool.{contains}
use frances.Edit.State.{FilePath, LineEntry, FileAnchorState, anchors}
use frances.Edit.Store.{AnchorStore}

-- `mtime_ns`, `size` and `content_digest`.
abbrev pub Meta : Type 0
Meta = ℕ × ℕ × ℕ

abbrev pub state_of : FilePath → List LineEntry → Meta → FileAnchorState
state_of path lines (mtime_ns, size, digest) = record {
  path = path;
  mtime_ns = mtime_ns;
  size = size;
  content_digest = digest;
  lines = lines;
}

abbrev pub meta_of : FileAnchorState → Meta
meta_of state = (state.mtime_ns, state.size, state.content_digest)

-- The stored lines and meta of each file and its tombstones, and how each call reads or changes
-- those of the file that it is about. A set of anchors is told by its members.
pub record IsReliable {S : Type 0} (store : AnchorStore S) : Type 0 where
  pub lines : S → FilePath → List LineEntry
  pub meta : S → FilePath → Option Meta
  pub buried : S → FilePath → List Anchor
  pub used : S → FilePath → List Anchor
  pub loads :
      (s : S) (path : FilePath)
      → store.load path s ≡ (ok (Option.map (state_of path (lines s path)) (meta s path)), s)
  pub uses : (s : S) (path : FilePath) → store.used_anchors path s ≡ (ok (used s path), s)
  pub used_members :
      (s : S) (path : FilePath) (a : Anchor)
      → contains (used s path) a ≡ contains (anchors (lines s path) ++ buried s path) a
  pub saves :
      (s : S) (path : FilePath) (mtime_ns size digest : ℕ)
      → (t : S) × (store.save_meta path mtime_ns size digest s ≡ (ok tt, t))
        × (lines t path ≡ lines s path)
        × (meta t path ≡ some (mtime_ns, size, digest))
        × (buried t path ≡ buried s path)
  pub replaces :
      (s : S) (path : FilePath) (state : FileAnchorState)
      → length state.lines < 2 ^ 32
      → (t : S) × (store.replace_file_lines path state s ≡ (ok tt, t))
        × (lines t path ≡ state.lines)
        × (meta t path ≡ some (meta_of state))
        × (buried t path ≡ buried s path)
  pub tombstones :
      (s : S) (path : FilePath) (gone : List Anchor)
      → (t : S) × (store.tombstone path gone s ≡ (ok tt, t))
        × (lines t path ≡ lines s path)
        × (meta t path ≡ meta s path)
        × ((a : Anchor) → contains (buried t path) a ≡ contains (buried s path ++ gone) a)
  pub clears :
      (s : S)
      → (t : S) × (store.clear_tombstones s ≡ (ok tt, t))
        × ((path : FilePath) → (lines t path ≡ lines s path) × (meta t path ≡ meta s path))
