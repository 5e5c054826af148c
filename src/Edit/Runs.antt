-- ===== src/Edit/Runs.antt =====
-- Runs of the editor over the store in memory.
use frances.Prelude.{
  ℕ, ◌+◌, ◌<◌, ◌≤◌, ◌≡◌, refl, List, [], ◌∷◌, ◌++◌, Option, none, some, length, arith, ok, err,
  true, eq_list, eq_list_iff, Bool-cases, inl, inr,
}
use frances.Prelude.Action.{◌>>=◌, ◌>>◌}
use frances.Text.{Text, codes, join}
use frances.Anchors.Words.{word}
use frances.Anchors.Hash.{hash_lines}
use frances.Anchors.Tests.{sample_dict, sample_dict-IsDictionary, word-sample_dict, sample_hasher}
use frances.Edit.Anchor.{Anchor, first, to_string}
use frances.Edit.Anchor.Bytes.{IsPlain}
use frances.Edit.LoopGuard.{read}
use frances.Edit.Pool.{Pool, from_used}
use frances.Edit.Pool.Members.{count, count_absent}
use frances.Edit.Pool.Mint.{from_used-IsPool, IsPool}
use frances.Edit.State.{FilePath, FileAnchorState, find_anchor}
use frances.Edit.Diff.{DiffOp, Differ, IsScript}
use frances.Edit.Diff
use frances.Edit.Reconcile.{EditHints, ReconcileOutcome, reconcile}
use frances.Edit.Reconcile.Outcome.{IsAnchored, IsReconciled, reconcile-IsReconciled}
use frances.Edit.Ops
use frances.Edit.Ops.{EditOp, LineOrigin, insert_after, replace, apply_ops}
use frances.Edit.Ops.Trace.{IsTraced, apply_ops-IsTraced}
use frances.Edit.Ops.Single.{spliced, apply_ops-single}
use frances.Edit.Store.Fake.{Inner, new_store, fake_store}
use frances.Edit.Store.Fake.Laws.{fake-IsReliable}
use frances.Edit.Engine.{WorkingFile, open_file, mint_lines}
use frances.Edit.Engine.Minted.{IsFresh, mint_lines-IsFresh}
use frances.Edit.Engine.Opened.{IsStored, IsOpened}
use frances.Edit.Engine.Open.{open_file-IsOpened, open_file-again}
use frances.Edit.Session.Types.{
  not_cached_for_overwrite, LlmEdit, overwrite, RegexCrate, Surroundings, World,
}
use frances.Edit.Session.Dispatch.{edit}
use frances.Edit.Session.Anchored.{draft_entries}
use frances.Edit.Session.Drafted.{IsKept, draft_entries-IsAnchored}
use frances.Edit.State.{LineEntry, hashes}
use frances.Edit.Session.WholeFile.{apply_overwrite}
use frances.Edit.Session.Effects.{edit-clears, edit-err}
use frances.Edit.Session.Resolve.{IsWithout, resolve_anchor-rendered}
use frances.Edit.Session.Working.{resolve_anchor, newline}
use frances.Edit.Render.{anchor_sep}

-- A diff that replaces everything.
abbrev replace_whole : {A : Type 0} → List A → List A → List DiffOp
replace_whole old new =
    record {
      tag = Diff.replace;
      old_start = 0;
      old_end = length old;
      new_start = 0;
      new_end = length new;
    }
    ∷ []

abbrev sample_differ : Differ
sample_differ = record { diff_hashes = replace_whole; diff_anchors = replace_whole }

replace_whole-IsScript : (xs ys : List ℕ) → IsScript xs ys 0 0 (replace_whole xs ys)
replace_whole-IsScript xs ys =
    (refl, refl, omega arith, omega arith, omega arith, omega arith, tt, (refl, refl))

abbrev path : FilePath
path = codes "/x"

abbrev disk : List Text
disk = codes "a" ∷ [] ∷ codes "b" ∷ []

-- The file as it was, of two lines.
abbrev cached : FileAnchorState
cached = record {
  path = path;
  mtime_ns = 1;
  size = 2;
  content_digest = 3;
  lines = record { hash = 7; anchor = first } ∷ record { hash = 8; anchor = 11 ∷ [] } ∷ [];
}

abbrev used : List Anchor
used = first ∷ (11 ∷ []) ∷ []

distinct_pair : (a : Anchor) → count a used ≤ 1
unfolding eq_list
distinct_pair a = elim (Bool-cases (eq_list first a)) [
  | inl e ↦ rw (← (eq_list_iff first a).0 e) (omega arith)
  | inr e ↦ rw e (at_most_one (11 ∷ []))
]
  where
    at_most_one : (b : Anchor) → count a (b ∷ []) ≤ 1
    at_most_one b = ground arith

pool-IsAnchored : IsAnchored cached.lines (from_used used).used
unfolding from_used
pool-IsAnchored = record { distinct = distinct_pair; in_use = λ a n. count_absent a used n }

abbrev hints : Option EditHints
hints = some (record { deleted_anchors = first ∷ [] })

reconcile-IsReconciled_example :
    (r : ReconcileOutcome × Pool) × (reconcile sample_hasher sample_differ cached disk
        (from_used used)
        none
      ≡ ok r)
    × IsReconciled cached none (hash_lines sample_hasher disk) (from_used used) r
    × IsPool r.1
reconcile-IsReconciled_example =
    reconcile-IsReconciled sample_hasher sample_differ cached disk (from_used used) none
      (from_used-IsPool used) pool-IsAnchored tt (replace_whole-IsScript _ _)

mint_lines-IsFresh_example :
    IsFresh (1 ∷ 2 ∷ []) (from_used used) (mint_lines (1 ∷ 2 ∷ []) (from_used used)).0
mint_lines-IsFresh_example =
    mint_lines-IsFresh (1 ∷ 2 ∷ []) (from_used used) (from_used-IsPool used)

-- Two operations: behind the first line, and in place of the second.
abbrev ops : List EditOp
ops =
    insert_after first (codes "new" ∷ [])
    ∷ replace (11 ∷ []) (11 ∷ []) (codes "x" ∷ codes "y" ∷ [])
    ∷ []

abbrev old_lines : List Text
old_lines = codes "a" ∷ codes "b" ∷ []

abbrev edited : List Text
edited = codes "a" ∷ codes "new" ∷ codes "x" ∷ codes "y" ∷ []

abbrev edited_origins : List LineOrigin
edited_origins = Ops.carried 0 ∷ Ops.inserted ∷ Ops.inserted ∷ Ops.inserted ∷ []

apply_ops-ops : apply_ops cached old_lines ops ≡ ok (edited, edited_origins)
unfolding apply_ops find_anchor eq_list
apply_ops-ops = refl

apply_ops-IsTraced_example : IsTraced old_lines 0 edited edited_origins
apply_ops-IsTraced_example =
    apply_ops-IsTraced cached old_lines ops edited edited_origins (omega arith) apply_ops-ops

draft_entries-IsAnchored_example :
    (r : List LineEntry × Pool) × (draft_entries cached.lines edited_origins
        (1 ∷ 2 ∷ 3 ∷ 4 ∷ [])
        (from_used used)
      ≡ ok r)
    × (hashes r.0 ≡ 1 ∷ 2 ∷ 3 ∷ 4 ∷ [])
    × IsKept cached.lines (from_used used).used edited_origins r.0
    × IsAnchored r.0 r.1.used
    × IsPool r.1
draft_entries-IsAnchored_example =
    draft_entries-IsAnchored cached old_lines ops edited edited_origins (1 ∷ 2 ∷ 3 ∷ 4 ∷ [])
      (from_used used) (omega arith) apply_ops-ops refl refl (from_used-IsPool used) pool-IsAnchored

find-second : find_anchor cached (11 ∷ []) ≡ some 1
unfolding find_anchor eq_list
find-second = refl

apply_ops-single_example :
    apply_ops cached old_lines (replace (11 ∷ []) (11 ∷ []) (codes "x" ∷ []) ∷ [])
    ≡ ok (spliced old_lines 1 2 (codes "x" ∷ []))
apply_ops-single_example =
    apply_ops-single cached old_lines (replace (11 ∷ []) (11 ∷ []) (codes "x" ∷ [])) 1 2
      (omega arith) (1, find-second, find-second, omega arith, omega arith, refl)

new_store-IsStored : IsStored fake-IsReliable new_store path
unfolding fake-IsReliable
new_store-IsStored = record { distinct = λ a. omega arith; unknown = λ e. refl }

open_file-IsOpened_example :
    (state : FileAnchorState) × (t : Inner) × (open_file sample_hasher sample_differ fake_store path
        disk 100 5 new_store
      ≡ (ok (record { path = path; state = state; lines = disk }), t))
    × IsOpened sample_hasher fake-IsReliable new_store t path disk 100 5 state
    × IsStored fake-IsReliable t path
open_file-IsOpened_example =
    open_file-IsOpened sample_hasher sample_differ fake_store fake-IsReliable replace_whole-IsScript
      new_store path disk 100 5 new_store-IsStored (omega arith)

open_file-again_example :
    (w : WorkingFile) × (t : Inner) × (open_file sample_hasher sample_differ fake_store path disk
        100 5 new_store
      ≡ (ok w, t))
    × (open_file sample_hasher sample_differ fake_store path disk 100 5 t ≡ (ok w, t))
open_file-again_example =
    open_file-again sample_hasher sample_differ fake_store fake-IsReliable replace_whole-IsScript
      new_store path disk 100 5 new_store-IsStored (omega arith)

-- No pattern compiles to anything, and nothing is reformatted on the way to the disk.
abbrev no_regex : RegexCrate
no_regex = record {
  Regex = Unit {0};
  new = λ pattern. ok tt;
  first_group = λ re line. none;
  find_count = λ re text. 0;
  replace_in = λ re text replacement. none;
}

abbrev surroundings : Surroundings Inner (Unit {0})
surroundings = record {
  dict = sample_dict;
  hasher = sample_hasher;
  differ = sample_differ;
  regex_crate = no_regex;
  anchor_store = fake_store;
  write = λ at draft mode w. (ok (record { lines = draft; mtime_ns = 200; size = 9 }), w);
}

abbrev world : World Inner (Unit {0})
world = record { stored = new_store; disk = tt; open_files = []; loop_set = read 1 2 3 ∷ [] }

abbrev rewrite : LlmEdit
rewrite = overwrite path (codes "new") true

edit-clears_example : (edit surroundings rewrite world).1.loop_set ≡ []
edit-clears_example = edit-clears surroundings rewrite world

edit-unread :
    edit surroundings rewrite world
    ≡ (err (not_cached_for_overwrite path), record world { loop_set = [] })
unfolding edit ◌>>=◌ ◌>>◌ apply_overwrite
edit-unread = refl

edit-err_example : [] ≡ world.open_files
edit-err_example =
    edit-err surroundings rewrite world (record world { loop_set = [] })
      (not_cached_for_overwrite path) edit-unread

-- The second line of the file, as it is shown.
abbrev name : Text
name = (0x4e00 + 11) ∷ []

without : (sep : ℕ) → sep < 0x4e00 → IsWithout sep sample_dict
without sep h i w e = rw (word-sample_dict i w e) (omega arith, tt)

plain : IsPlain sample_dict
plain i w h = rw (word-sample_dict i w h) (λ e. cc, (omega arith, tt))

to_string-second : to_string sample_dict (11 ∷ []) ≡ ok name
unfolding to_string word sample_dict join
to_string-second = refl

resolve_anchor-rendered_example :
    resolve_anchor sample_dict (name ++ anchor_sep ∷ codes "b") cached old_lines path
    ≡ ok (11 ∷ [], 1)
resolve_anchor-rendered_example =
    resolve_anchor-rendered sample_dict sample_dict-IsDictionary plain
      (without newline (omega arith)) (without anchor_sep (omega arith)) cached old_lines path 1
      (record { hash = 8; anchor = 11 ∷ [] }) (codes "b") name distinct_pair (omega arith) refl refl
      (record { nonempty = λ e. cc; words = ((omega arith, omega arith), tt) }) (omega arith, tt)
      to_string-second
