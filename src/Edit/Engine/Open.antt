-- ===== src/Edit/Engine/Open.antt =====
-- crates/frances-edit/src/engine.rs: opening a file over a store that works.
use frances.Prelude.{ℕ, ◌<◌, ◌^◌, ◌≡◌, refl, List, none, some, true, ◌==◌, ◌&&◌, length, arith, ok}
use frances.Prelude.Action.{◌>>=◌, ◌>>◌}
use frances.Text.{Text}
use frances.Anchors.Hash.{Hasher}
use frances.Edit.State.{FilePath, FileAnchorState}
use frances.Edit.Diff.{Differ, IsScript}
use frances.Edit.Store.{AnchorStore}
use frances.Edit.Store.Reliable.{IsReliable, Meta}
use frances.Edit.Engine.{open_state, open_file, WorkingFile}
use frances.Edit.Engine.Opened.{IsStored, IsOpened}
use frances.Edit.Engine.Opening.{Opens-state}

same_test : (a b : ℕ) → (a == a && b == b) ≡ true
same_test a b = ground arith

module _ (H : Hasher) (D : Differ) {S : Type 0} (store : AnchorStore S) (R : IsReliable store) where
  open R use {lines, meta, buried, used, loads, uses, used_members, saves, replaces, tombstones}

  opened_again :
      (s t : S) (path : FilePath) (disk : List Text) (mtime_ns size : ℕ) (state : FileAnchorState)
      → IsOpened H R s t path disk mtime_ns size state
      → open_file H D store path disk mtime_ns size t
        ≡ (ok (record { path = path; state = state; lines = disk }), t)
  unfolding ◌>>=◌ ◌>>◌ open_file open_state
  opened_again s t path disk mtime_ns size state o =
      rw (loads t path, o.stored_meta, o.stored_lines, same_test mtime_ns size)
        (rw (← o.same_path, ← o.current.0, ← o.current.1) refl)

  module _ (scripts : (xs ys : List ℕ) → IsScript xs ys 0 0 (D.diff_hashes xs ys)) where
    opened-IsStored :
        (s t : S) (path : FilePath) (disk : List Text) (mtime_ns size : ℕ) (state : FileAnchorState)
        → IsOpened H R s t path disk mtime_ns size state
        → IsStored R t path
    opened-IsStored s t path disk mtime_ns size state o = record {
      distinct = rw o.stored_lines o.distinct;
      unknown = λ n. absurd (clash _ o.stored_meta n);
    }
      where
        clash : (m : Meta) → meta t path ≡ some m → meta t path ≡ none → ⊥
        clash m e n = cc

    -- Over a store whose calls succeed and a diff that always returns scripts, for a file of fewer than
    -- 2^32 lines whose stored anchors are distinct, and that has no stored lines while it is unknown:
    -- `open` succeeds and returns the lines it was given. The state it returns is the one stored, with
    -- the time and size given. Its lines have the hashes of those on disk; or they are the stored ones, and
    -- the stored time and size are those given or the stored digest is that of the lines on disk. Its anchors
    -- are distinct; an anchor that was in use stays so, and stands on no more lines than it stood on. What
    -- was asked of the store holds again.
    pub open_file-IsOpened :
        (s : S) (path : FilePath) (disk : List Text) (mtime_ns size : ℕ)
        → IsStored R s path
        → length disk < 2 ^ 32
        → (state : FileAnchorState) × (t : S) × (open_file H D store path disk mtime_ns size s
            ≡ (ok (record { path = path; state = state; lines = disk }), t))
          × IsOpened H R s t path disk mtime_ns size state
          × IsStored R t path
    unfolding ◌>>=◌ ◌>>◌ open_file
    open_file-IsOpened s path disk mtime_ns size h small =
        let (state, t, e, o) = Opens-state H D store R scripts s path disk mtime_ns size h small in
        (
          state,
          t,
          rw (loads s path, e) refl,
          o,
          opened-IsStored s t path disk mtime_ns size state o,
        )

    -- Over a store whose calls succeed and a diff that always returns scripts, for a file of fewer than
    -- 2^32 lines whose stored anchors are distinct, and that has no stored lines while it is unknown, be it
    -- known or not and changed or not: it is opened, and when it is opened again with the same lines, time and size, the
    -- result is the same, and the store does not change.
    pub open_file-again :
        (s : S) (path : FilePath) (disk : List Text) (mtime_ns size : ℕ)
        → IsStored R s path
        → length disk < 2 ^ 32
        → (w : WorkingFile) × (t : S) × (open_file H D store path disk mtime_ns size s ≡ (ok w, t))
          × (open_file H D store path disk mtime_ns size t ≡ (ok w, t))
    open_file-again s path disk mtime_ns size h small =
        let (state, t, e, o, _) = open_file-IsOpened s path disk mtime_ns size h small in
        (
          record { path = path; state = state; lines = disk },
          t,
          e,
          opened_again s t path disk mtime_ns size state o,
        )
