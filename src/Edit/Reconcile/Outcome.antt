-- ===== src/Edit/Reconcile/Outcome.antt =====
-- What `reconcile` returns, whatever the diff, as long as it is a script.
use frances.Prelude.{
  ℕ, zero, suc, ◌+◌, ◌-◌, ◌≤◌, ◌≡◌, refl, sym, ◌∙◌, List, [], ◌∷◌, length, length-map, length-take,
  length-drop, take, drop, true, false, All, arith, Option, some, none, ok,
}
use native.Mathlib.Nat.{zero-add}
use frances.Text.{Text}
use frances.Anchors.Hash.{Hasher, hash_lines}
use frances.Edit.Anchor.{Anchor}
use frances.Edit.Pool.{Pool, contains}
use frances.Edit.Pool.Members.{count, IsDistinct}
use frances.Edit.Pool.Mint.{IsPool}
use frances.Edit.State.{LineEntry, FileAnchorState, hashes, anchors, line_hashes}
use frances.Edit.Diff.{Differ, IsScript}
use frances.Edit.Diff.Slices.{slice, map-slice}
use frances.Edit.Reconcile.{
  EditHints, ReconcileOutcome, start_work, cached_hashes, outcome_of, reconcile,
}
use frances.Edit.Reconcile.Ledger.{IsLedger}
use frances.Edit.Reconcile.Script.{IsCarried, apply_diff-IsLedger}
use frances.Edit.Reconcile.Poison.{IsReal, length-poisoned, slice-poisoned, poisoned-IsReal}

-- A file's anchors are distinct and all in use.
pub record IsAnchored (lines : List LineEntry) (used : List Anchor) : Type 0 where
  pub distinct : IsDistinct (anchors lines)
  pub in_use : (a : Anchor) → contains used a ≡ false → count a (anchors lines) ≡ 0

abbrev pub excluded_of : Option EditHints → List Anchor
excluded_of none = []
excluded_of (some h) = h.deleted_anchors

-- No line on disk has one of the poison hashes; without hints there are none.
abbrev pub IsClean : FileAnchorState → Option EditHints → List ℕ → Type 0
IsClean cached none dhs = Unit {0}
IsClean cached (some h) dhs = All (IsReal (length cached.lines)) dhs

pub record IsReconciled (cached : FileAnchorState) (hints : Option EditHints) (dhs : List ℕ)
    (pool : Pool) (r : ReconcileOutcome × Pool) : Type 0 where
  pub same_path : r.0.state.path ≡ cached.path
  -- The new lines are those on disk, in order.
  pub disk_hashes : hashes r.0.state.lines ≡ dhs
  -- Their anchors are distinct, and in use in the pool, which has lost none.
  pub anchored : IsAnchored r.0.state.lines r.1.used
  pub grown : (a : Anchor) → contains pool.used a ≡ true → contains r.1.used a ≡ true
  -- Each anchor of the file is carried over or tombstoned, and not both; no other anchor that was in
  -- use is given to a line.
  pub carried_or_tombstoned :
      (a : Anchor)
      → contains pool.used a ≡ true
      → count a (anchors r.0.state.lines) + count a r.0.tombstoned ≡ count a (anchors cached.lines)
  pub only_old : (a : Anchor) → count a r.0.tombstoned ≤ count a (anchors cached.lines)
  -- No hinted anchor is carried over.
  pub spared :
      (a : Anchor)
      → contains (excluded_of hints) a ≡ true
      → contains pool.used a ≡ true
      → count a (anchors r.0.state.lines) ≡ 0

All-take : (P : ℕ → Type 0) (n : ℕ) (xs : List ℕ) → All P xs → All P (take n xs)
All-take P zero xs h = tt
All-take P (suc n) [] h = tt
All-take P (suc n) (x ∷ xs) h = (h.0, All-take P n xs h.1)

All-drop : (P : ℕ → Type 0) (n : ℕ) (xs : List ℕ) → All P xs → All P (drop n xs)
All-drop P zero xs h = h
All-drop P (suc n) [] h = tt
All-drop P (suc n) (x ∷ xs) h = All-drop P n xs h.1

IsCarried-plain :
    (cached : FileAnchorState) (dhs : List ℕ) → IsCarried cached [] (line_hashes cached) dhs
unfolding line_hashes
IsCarried-plain cached dhs i i' j j' e =
    (map-slice (λ le. le.hash) i i' cached.lines ∙ e, λ a m. cc)

IsCarried-hinted :
    (cached : FileAnchorState) (h : EditHints) (dhs : List ℕ)
    → All (IsReal (length cached.lines)) dhs
    → IsCarried cached h.deleted_anchors (cached_hashes cached (some h)) dhs
unfolding cached_hashes
IsCarried-hinted cached h dhs real i i' j j' e =
    poisoned-IsReal h.deleted_anchors (length cached.lines) i (slice i i' cached.lines)
      (slice j j' dhs)
      (omega (arith, length-take (i' - i) (drop i cached.lines), length-drop i cached.lines))
      (All-take _ (j' - j) (drop j dhs) (All-drop (IsReal (length cached.lines)) j dhs real))
      (sym (rw zero-add at (slice-poisoned h.deleted_anchors 0 i i' cached.lines)) ∙ e)

carried :
    (cached : FileAnchorState) (hints : Option EditHints) (dhs : List ℕ)
    → IsClean cached hints dhs
    → IsCarried cached (excluded_of hints) (cached_hashes cached hints) dhs
carried cached none dhs clean = unfold cached_hashes in IsCarried-plain cached dhs
carried cached (some h) dhs clean = IsCarried-hinted cached h dhs clean

length-cached_hashes :
    (cached : FileAnchorState) (hints : Option EditHints)
    → length (cached_hashes cached hints) ≡ length cached.lines
unfolding cached_hashes line_hashes
length-cached_hashes cached none = length-map (λ le. le.hash) cached.lines
length-cached_hashes cached (some h) = length-poisoned h.deleted_anchors 0 cached.lines

start-IsLedger :
    (cached : FileAnchorState) (excluded : List Anchor) (pool : Pool)
    → IsPool pool
    → IsAnchored cached.lines pool.used
    → IsLedger (anchors cached.lines) pool.used excluded (anchors cached.lines) (start_work pool)
start-IsLedger cached excluded pool p h = record {
  pool_valid = p;
  once = λ a. omega (arith, h.distinct a);
  in_use = λ a n. omega (arith, h.in_use a n);
  kept = λ a n. omega arith;
  grown = λ a n. n;
  spared = λ a x n. refl;
  buried = λ a. omega arith;
}

module _ (H : Hasher) (D : Differ) where
  -- From a valid pool, and a cached file with distinct anchors that are in use, `reconcile` does not
  -- panic, as long as the diff is a script and, with hints, no line on disk has a poison hash. The
  -- new lines are those on disk, their anchors are distinct and in use, each old anchor that was in
  -- use is carried over or tombstoned as often as the file had it, and no hinted anchor is carried
  -- over.
  pub reconcile-IsReconciled :
      (cached : FileAnchorState) (disk : List Text) (pool : Pool) (hints : Option EditHints)
      → IsPool pool
      → IsAnchored cached.lines pool.used
      → IsClean cached hints (hash_lines H disk)
      → IsScript
          (cached_hashes cached hints)
          (hash_lines H disk)
          0
          0
          (D.diff_hashes (cached_hashes cached hints) (hash_lines H disk))
      → (r : ReconcileOutcome × Pool) × (reconcile H D cached disk pool hints ≡ ok r)
        × IsReconciled cached hints (hash_lines H disk) pool r
        × IsPool r.1
  unfolding reconcile
  reconcile-IsReconciled cached disk pool hints p h clean script =
      let dhs = hash_lines H disk in
      let (w, e, l, hs) =
        apply_diff-IsLedger cached (cached_hashes cached hints) dhs pool.used (excluded_of hints)
          (length-cached_hashes cached hints) (carried cached hints dhs clean) _ 0 0
          (start_work pool) script (start-IsLedger cached _ pool p h) in
      (
        outcome_of H cached dhs w,
        rw e,
        record {
          same_path = refl;
          disk_hashes = hs;
          anchored = record {
            distinct = λ a. omega (arith, l.once a);
            in_use = λ a n. omega (arith, l.in_use a n);
          };
          grown = l.grown;
          carried_or_tombstoned = λ a n. omega (arith, l.kept a n);
          only_old = λ a. omega (arith, l.buried a);
          spared = l.spared;
        },
        l.pool_valid,
      )
