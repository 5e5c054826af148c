-- ===== src/Edit/Store/Fake.antt =====
-- crates/frances-edit/src/store.rs: `FakeStore`, the store in memory.
pub mod Laws
use frances.Prelude.{
  ℕ, zero, suc, ◌+◌, ◌%◌, ◌^◌, List, [], ◌∷◌, ◌++◌, Option, none, some, map, ltb, ◌==◌,
  if◌then◌else◌, ok,
}
use frances.Prelude.Dict.{lookup, insert, remove}
use frances.Prelude.Action.{Action, return}
use frances.Text.{Text, is_empty}
use frances.Edit.Anchor.{Anchor}
use frances.Edit.State.{FilePath, LineEntry, FileAnchorState, anchors}
use frances.Edit.Store.{AnchorStore, StoreError}

-- `meta` is `(mtime_ns, size, content_digest)`. The map of lines is a list in the order of its keys;
-- a set of anchors is a list, of which membership is observed.
pub record Inner : Type 0 where
  pub meta : List (FilePath × (ℕ × ℕ × ℕ))
  pub lines : List (FilePath × List (ℕ × LineEntry))
  pub tombstones : List (FilePath × List Anchor)

abbrev pub new_store : Inner
new_store = record { meta = []; lines = []; tombstones = [] }

-- `BTreeMap::insert`
unfoldable pub btree_insert : ℕ → LineEntry → List (ℕ × LineEntry) → List (ℕ × LineEntry)
btree_insert k v [] = (k, v) ∷ []
btree_insert k v ((j, u) ∷ m) =
    let rest = btree_insert k v m in
    if ltb k j then (k, v) ∷ (j, u) ∷ m else if k == j then (k, v) ∷ m else (j, u) ∷ rest

abbrev pub values : List (ℕ × LineEntry) → List LineEntry
values = map (λ e. e.1)

-- The loop over `enumerate()`; line numbers are cast to u32.
unfoldable pub number_lines : ℕ → List LineEntry → List (ℕ × LineEntry) → List (ℕ × LineEntry)
unfolding btree_insert
number_lines i [] m = m
number_lines i (le ∷ les) m = number_lines (suc i) les (btree_insert (i % 2 ^ 32) le m)

abbrev pub or_empty : {A : Type 0} → Option (List A) → List A
or_empty none = []
or_empty (some xs) = xs

unfoldable pub load : FilePath → Inner → Option FileAnchorState
unfolding lookup
load path s = elim (lookup s.meta path) [
  | none ↦ none
  | some (mtime_ns, size, digest) ↦ some (record {
    path = path;
    mtime_ns = mtime_ns;
    size = size;
    content_digest = digest;
    lines = values (or_empty (lookup s.lines path));
  })
]

unfoldable pub save_meta : FilePath → ℕ → ℕ → ℕ → Inner → Inner
unfolding insert
save_meta path mtime_ns size digest s = record s {
  meta = insert s.meta path (mtime_ns, size, digest);
}

unfoldable pub replace_file_lines : FilePath → FileAnchorState → Inner → Inner
unfolding insert remove number_lines
replace_file_lines path state s =
    let cleared = remove s.lines path in
    record {
      lines =
          if is_empty state.lines
          then cleared
          else insert cleared path (number_lines 0 state.lines []);
      meta = insert s.meta path (state.mtime_ns, state.size, state.content_digest);
      tombstones = s.tombstones;
    }

unfoldable pub used_anchors : FilePath → Inner → List Anchor
unfolding lookup
used_anchors path s =
    anchors (values (or_empty (lookup s.lines path))) ++ or_empty (lookup s.tombstones path)

unfoldable pub tombstone : FilePath → List Anchor → Inner → Inner
unfolding insert lookup
tombstone path gone s = record s {
  tombstones = insert s.tombstones path (or_empty (lookup s.tombstones path) ++ gone);
}

unfoldable pub clear_tombstones : Inner → Inner
clear_tombstones s = record s { tombstones = [] }

-- The trait's methods; none of them fails.
abbrev pub fake_store : AnchorStore Inner
fake_store = record {
  load = λ path s. (ok (load path s), s);
  save_meta = λ path mtime_ns size digest s. (ok tt, save_meta path mtime_ns size digest s);
  replace_file_lines = λ path state s. (ok tt, replace_file_lines path state s);
  used_anchors = λ path s. (ok (used_anchors path s), s);
  tombstone = λ path gone s. (ok tt, tombstone path gone s);
  clear_tombstones = λ s. (ok tt, clear_tombstones s);
}
