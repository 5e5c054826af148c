-- ===== src/Edit/Engine/Opened.antt =====
-- What it is to open a file over a store that works, and why no anchor is forgotten.
use frances.Prelude.{
  ℕ, ◌+◌, ◌≤◌, ◌≡◌, sym, ◌∙◌, ◌⊎◌, inl, inr, List, [], ◌++◌, none, some, true, arith, Bool-cases,
}
use frances.Text.{Text}
use frances.Anchors.Hash.{Hasher, hash_lines}
use frances.Edit.Anchor.{Anchor}
use frances.Edit.Pool.{from_used, contains}
use frances.Edit.Pool.Members.{
  contains-append_left, contains-append_right, contains-append_cases, absent_left, count,
  IsDistinct, count_absent, count_present, present_of_count,
}
use frances.Edit.State.{FilePath, LineEntry, FileAnchorState, hashes, anchors, content_digest}
use frances.Edit.Reconcile.Outcome.{IsAnchored}
use frances.Edit.Store.{AnchorStore}
use frances.Edit.Store.Reliable.{IsReliable, Meta}

-- The file's line anchors are distinct, and it has no lines while it is unknown.
pub record IsStored {S : Type 0} {store : AnchorStore S} (R : IsReliable store) (s : S)
    (path : FilePath) : Type 0 where
  pub distinct : IsDistinct (anchors (IsReliable.lines R s path))
  pub unknown : IsReliable.meta R s path ≡ none → IsReliable.lines R s path ≡ []

-- The stored time and size are the file's, or the stored digest is that of the lines on disk.
abbrev pub IsUnchanged : Hasher → Meta → List Text → ℕ → ℕ → Type 0
IsUnchanged H m disk mtime_ns size =
    ((m.0 ≡ mtime_ns) × (m.1 ≡ size)) ⊎ (m.2 ≡ content_digest H (hash_lines H disk))

-- The state that opening returns: it has the lines on disk, or the stored ones if these are unchanged. And
-- the store before and after it.
pub record IsOpened (H : Hasher) {S : Type 0} {store : AnchorStore S} (R : IsReliable store)
    (s t : S) (path : FilePath) (disk : List Text) (mtime_ns size : ℕ) (state : FileAnchorState)
    : Type 0 where
  pub stored_lines : IsReliable.lines R t path ≡ state.lines
  pub stored_meta : IsReliable.meta R t path ≡ some (mtime_ns, size, state.content_digest)
  pub same_path : state.path ≡ path
  pub current : (state.mtime_ns ≡ mtime_ns) × (state.size ≡ size)
  pub distinct : IsDistinct (anchors state.lines)
  -- An anchor in use stays in use, and stands on no more lines than before.
  pub remembered :
      (a : Anchor)
      → contains (IsReliable.used R s path) a ≡ true
      → contains (IsReliable.used R t path) a ≡ true
  pub not_reused :
      (a : Anchor)
      → contains (IsReliable.used R s path) a ≡ true
      → count a (anchors state.lines) ≤ count a (anchors (IsReliable.lines R s path))
  pub content :
      (hashes state.lines ≡ hash_lines H disk)
      ⊎ ((state.lines ≡ IsReliable.lines R s path)
          × ((m : Meta) × (IsReliable.meta R s path ≡ some m) × IsUnchanged H m disk mtime_ns size))

module _ {S : Type 0} {store : AnchorStore S} (R : IsReliable store) where
  open R use {lines, meta, buried, used, used_members}

  -- The anchors of the store are those that the pool starts from.
  pub stored-IsAnchored :
      (s : S) (path : FilePath)
      → IsStored R s path
      → IsAnchored (lines s path) (from_used (used s path)).used
  unfolding from_used
  stored-IsAnchored s path h = record {
    distinct = h.distinct;
    in_use = λ a n.
        absent_left a (anchors (lines s path)) (buried s path) (sym (used_members s path a) ∙ n);
  }

  pub pooled :
      (s : S) (path : FilePath) (a : Anchor)
      → contains (used s path) a ≡ true
      → contains (from_used (used s path)).used a ≡ true
  unfolding from_used
  pooled s path a u = u

  -- No anchor is forgotten when each of the file's anchors is kept by a line or tombstoned.
  module _ (s t : S) (path : FilePath) (les : List LineEntry) (gone : List Anchor)
      (el : lines t path ≡ les)
      (eb : (a : Anchor)
        → contains (buried s path ++ gone) a ≡ true
        → contains (buried t path) a ≡ true)
      (kept : (a : Anchor)
        → contains (used s path) a ≡ true
        → count a (anchors (lines s path)) ≤ count a (anchors les) + count a gone) where
    in_lines : (a : Anchor) → contains (anchors les) a ≡ true → contains (used t path) a ≡ true
    in_lines a h =
        used_members t path a
        ∙ contains-append_left a (anchors (lines t path)) (buried t path) (rw el h)

    in_buried :
        (a : Anchor) → contains (buried s path ++ gone) a ≡ true → contains (used t path) a ≡ true
    in_buried a h =
        used_members t path a
        ∙ contains-append_right a (anchors (lines t path)) (buried t path) (eb a h)

    pub all_remembered :
        (a : Anchor) → contains (used s path) a ≡ true → contains (used t path) a ≡ true
    all_remembered a u =
        elim (contains-append_cases a (anchors (lines s path)) (buried s path)
          (sym (used_members s path a) ∙ u)) [
            | inr old ↦ in_buried a (contains-append_left a (buried s path) gone old)
            | inl line ↦ elim (Bool-cases (contains (anchors les) a)) [
              | inl e ↦ in_lines a e
              | inr e ↦ in_buried a (
                  contains-append_right a (buried s path) gone (
                    present_of_count a gone
                      (omega (arith, kept a u, count_present a _ line, count_absent a _ e))))
            ]
          ]
