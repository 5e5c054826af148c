-- ===== src/Edit/Store/Fake/Laws.antt =====
-- The store in memory does what the editor relies on.
use frances.Prelude.{
  ℕ, suc, ◌+◌, ◌<◌, ◌≤◌, ◌%◌, ◌^◌, ◌≡◌, refl, sym, ap, ◌∙◌, List, [], ◌∷◌, ◌++◌, append-nil,
  append_assoc, some, if◌then◌else◌, length, All, All-append, arith, Option-cases, inl, inr,
}
use mathlib.Core.List.{map-append}
use mathlib.Core.Option
use frances.Edit.Anchor.{Anchor}
use frances.Edit.Pool.{contains}
use frances.Prelude.Dict.{lookup, insert, remove, lookup-insert, lookup-remove}
use frances.Text.{is_empty}
use frances.Edit.State.{FilePath, LineEntry, FileAnchorState, anchors}
use frances.Edit.Store.Fake.{
  Inner, btree_insert, values, number_lines, or_empty, load, save_meta, replace_file_lines,
  used_anchors, tombstone, clear_tombstones, fake_store,
}
use frances.Edit.Store.Reliable.{IsReliable, Meta, meta_of, state_of}

-- All line numbers in the map are below `i`.
abbrev IsBelow : ℕ → List (ℕ × LineEntry) → Type 0
IsBelow i = All (λ e. e.0 < i)

btree_insert-last :
    (k : ℕ) (v : LineEntry) (m : List (ℕ × LineEntry))
    → IsBelow k m
    → btree_insert k v m ≡ m ++ (k, v) ∷ []
unfolding btree_insert
btree_insert-last k v [] h = refl
btree_insert-last k v ((j, u) ∷ m) h = ground (arith, btree_insert-last k v m h.1)

weaken : (i : ℕ) (m : List (ℕ × LineEntry)) → IsBelow i m → IsBelow (suc i) m
weaken i [] h = tt
weaken i (e ∷ m) h = (omega (arith, h.0), weaken i m h.1)

small : (i : ℕ) → i < 2 ^ 32 → i % 2 ^ 32 ≡ i
small i h = omega arith

values-number_lines :
    (i : ℕ) (les : List LineEntry) (m : List (ℕ × LineEntry))
    → IsBelow i m
    → i + length les ≤ 2 ^ 32
    → values (number_lines i les m) ≡ values m ++ les
unfolding number_lines
values-number_lines i [] m h k = sym (append-nil (values m))
values-number_lines i (le ∷ les) m h k =
    rw (small i (omega arith), btree_insert-last i le m h)
      (values-number_lines (suc i) les (m ++ (i, le) ∷ [])
          (All-append (λ e. e.0 < suc i) m ((i, le) ∷ []) (weaken i m h) (omega arith, tt))
          (omega arith)
        ∙ ap (λ (xs : List LineEntry). xs ++ les) (map-append (λ e. e.1) m ((i, le) ∷ []))
        ∙ append_assoc (values m) (le ∷ []) les)

abbrev lines_of : Inner → FilePath → List LineEntry
lines_of s path = values (or_empty (lookup s.lines path))

pub lines-replace :
    (s : Inner) (path : FilePath) (state : FileAnchorState)
    → length state.lines < 2 ^ 32
    → lines_of (replace_file_lines path state s) path ≡ state.lines
unfolding replace_file_lines
lines-replace s path state h = go state.lines h
  where
    go :
        (les : List LineEntry)
        → length les < 2 ^ 32
        → values (
            or_empty (
              lookup
                (if is_empty les
                  then remove s.lines path
                  else insert (remove s.lines path) path (number_lines 0 les []))
                path))
          ≡ les
    go [] k = rw (lookup-remove s.lines path) refl
    go (le ∷ les) k =
        rw (lookup-insert (remove s.lines path) path (number_lines 0 (le ∷ les) []))
          (values-number_lines 0 (le ∷ les) [] tt (omega arith))

pub meta-replace :
    (s : Inner) (path : FilePath) (state : FileAnchorState)
    → lookup (replace_file_lines path state s).meta path ≡ some (meta_of state)
unfolding replace_file_lines
meta-replace s path state = lookup-insert s.meta path (meta_of state)

pub meta-save :
    (s : Inner) (path : FilePath) (m : Meta)
    → lookup (save_meta path m.0 m.1 m.2 s).meta path ≡ some m
unfolding save_meta
meta-save s path m = lookup-insert s.meta path m

pub load_lem :
    (s : Inner) (path : FilePath)
    → load path s ≡ Option.map (state_of path (lines_of s path)) (lookup s.meta path)
unfolding load
load_lem s path = elim (Option-cases (lookup s.meta path)) [
  | inl e ↦ rw (e, load) refl
  | inr (m, e) ↦ rw (e, load) refl
]

pub used_members :
    (s : Inner) (path : FilePath) (a : Anchor)
    → contains (used_anchors path s) a
      ≡ contains (anchors (lines_of s path) ++ or_empty (lookup s.tombstones path)) a
unfolding used_anchors
used_members s path a = refl

pub buried-tombstone :
    (s : Inner) (path : FilePath) (gone : List Anchor)
    → or_empty (lookup (tombstone path gone s).tombstones path)
      ≡ or_empty (lookup s.tombstones path) ++ gone
unfolding tombstone
buried-tombstone s path gone =
    rw (lookup-insert s.tombstones path (or_empty (lookup s.tombstones path) ++ gone)) refl

-- `FakeStore` works: each call succeeds and does to its file what is expected, for fewer than 2^32
-- lines.
unfoldable pub fake-IsReliable : IsReliable fake_store
unfolding save_meta replace_file_lines tombstone clear_tombstones
fake-IsReliable = record {
  lines = lines_of;
  meta = λ s path. lookup s.meta path;
  buried = λ s path. or_empty (lookup s.tombstones path);
  used = λ s path. used_anchors path s;
  loads = λ s path. rw (load_lem s path) refl;
  uses = λ s path. refl;
  used_members = used_members;
  saves = λ s path mtime_ns size digest. (
    save_meta path mtime_ns size digest s,
    refl,
    refl,
    meta-save s path (mtime_ns, size, digest),
    refl,
  );
  replaces = λ s path state h. (
    replace_file_lines path state s,
    refl,
    lines-replace s path state h,
    meta-replace s path state,
    refl,
  );
  tombstones = λ s path gone.
      (tombstone path gone s, refl, refl, refl, λ a. rw (buried-tombstone s path gone) refl);
  clears = λ s. (clear_tombstones s, refl, λ path. (refl, refl));
}
