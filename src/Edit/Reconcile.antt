-- ===== src/Edit/Reconcile.antt =====
-- crates/frances-edit/src/reconcile.rs: anchors carried over to a changed file.
pub mod Outcome
pub mod Ledger
pub mod Poison
pub mod Script
use frances.Prelude.{
  ℕ, zero, suc, ◌+◌, ◌-◌, ◌%◌, ◌^◌, List, [], ◌∷◌, ◌++◌, Option, none, some, length, if◌then◌else◌,
  Result, ok, ◌>>=◌, expect,
}
use frances.Text.{Text}
use frances.Anchors.Hash.{Hasher, hash_lines}
use frances.Edit.Anchor.{Anchor}
use frances.Edit.Pool.{Pool, contains, mint}
use frances.Edit.State.{LineEntry, FileAnchorState, content_digest, line_hashes, anchors}
use frances.Edit.Diff.{DiffTag, equal, delete, insert, replace, DiffOp, Differ, range_of}

pub record EditHints : Type 0 where
  pub deleted_anchors : List Anchor

pub record ReconcileOutcome : Type 0 where
  pub state : FileAnchorState
  pub minted : List (ℕ × Anchor)
  pub tombstoned : List Anchor

-- `u64::MAX.wrapping_sub(i as u64 + 1)`
unfoldable pub poison : ℕ → ℕ
poison i = (2 ^ 64 - 1 + 2 ^ 64 - (i + 1) % 2 ^ 64) % 2 ^ 64

-- The hashes of the cached lines from index `i` on, those of the hinted anchors poisoned.
unfoldable pub poisoned : List Anchor → ℕ → List LineEntry → List ℕ
unfolding poison
poisoned excluded i [] = []
poisoned excluded i (le ∷ les) =
    (if contains excluded le.anchor then poison i else le.hash) ∷ poisoned excluded (suc i) les

unfoldable pub cached_hashes : FileAnchorState → Option EditHints → List ℕ
unfolding poisoned
cached_hashes cached none = line_hashes cached
cached_hashes cached (some h) = poisoned h.deleted_anchors 0 cached.lines

-- The variables of the loop over the operations, and the pool.
pub record Work : Type 0 where
  pub new_lines : List LineEntry
  pub minted : List (ℕ × Anchor)
  pub tombstoned : List Anchor
  pub pool : Pool

-- The loop over `new_range()`: each line gets a fresh anchor.
unfoldable pub insert_lines : List ℕ → Work → Work
insert_lines [] w = w
insert_lines (h ∷ hs) w =
    let (anchor, pool) = mint w.pool in
    insert_lines hs (record {
      new_lines = w.new_lines ++ (record { hash = h; anchor = anchor }) ∷ [];
      minted = w.minted ++ (length w.new_lines % 2 ^ 32, anchor) ∷ [];
      tombstoned = w.tombstoned;
      pool = pool;
    })

abbrev pub keep_lines : List LineEntry → Work → Work
keep_lines les w = record w { new_lines = w.new_lines ++ les }

abbrev pub delete_lines : List LineEntry → Work → Work
delete_lines les w = record w { tombstoned = w.tombstoned ++ anchors les }

-- Indexing out of bounds panics; reconciliation has no error of its own.
abbrev pub Outcome : Type 0 → Type 0
Outcome A = Result ⊥ A

module _ (cached : FileAnchorState) (on_disk_hashes : List ℕ) where
  abbrev old_lines : DiffOp → Outcome (List LineEntry)
  old_lines op = expect (range_of cached.lines op.old_start op.old_end)

  abbrev new_hashes : DiffOp → Outcome (List ℕ)
  new_hashes op = expect (range_of on_disk_hashes op.new_start op.new_end)

  unfoldable pub apply_tag : DiffTag → DiffOp → Work → Outcome Work
  unfolding insert_lines
  apply_tag equal op w = do les ← old_lines op; ok (keep_lines les w)
  apply_tag delete op w = do les ← old_lines op; ok (delete_lines les w)
  apply_tag insert op w = do hs ← new_hashes op; ok (insert_lines hs w)
  apply_tag replace op w = do
    les ← old_lines op
    hs ← new_hashes op
    ok (insert_lines hs (delete_lines les w))

  unfoldable pub apply_diff : List DiffOp → Work → Outcome Work
  unfolding apply_tag
  apply_diff [] w = ok w
  apply_diff (op ∷ ops) w = do w' ← apply_tag op.tag op w; apply_diff ops w'

abbrev pub start_work : Pool → Work
start_work pool = record { new_lines = []; minted = []; tombstoned = []; pool = pool }

abbrev pub outcome_of : Hasher → FileAnchorState → List ℕ → Work → ReconcileOutcome × Pool
outcome_of H cached on_disk_hashes w = (
  record {
    state = record {
      path = cached.path;
      mtime_ns = cached.mtime_ns;
      size = cached.size;
      content_digest = content_digest H on_disk_hashes;
      lines = w.new_lines;
    };
    minted = w.minted;
    tombstoned = w.tombstoned;
  },
  w.pool,
)

-- The pool is the caller's, changed in place.
unfoldable pub reconcile :
    Hasher
    → Differ
    → FileAnchorState
    → List Text
    → Pool
    → Option EditHints
    → Outcome (ReconcileOutcome × Pool)
unfolding apply_diff cached_hashes
reconcile H D cached on_disk_lines pool hints = do
  let on_disk_hashes = hash_lines H on_disk_lines
  let ops = D.diff_hashes (cached_hashes cached hints) on_disk_hashes
  w ← apply_diff cached on_disk_hashes ops (start_work pool)
  ok (outcome_of H cached on_disk_hashes w)
