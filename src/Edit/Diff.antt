-- ===== src/Edit/Diff.antt =====
-- The interface of the crate `similar` that reconciliation and rendering use: `DiffOp` with its tag
-- and ranges, and what `capture_diff_slices` promises of the operations it returns.
pub mod Slices
use frances.Prelude.{
  ℕ, ◌+◌, ◌-◌, ◌≤◌, ◌≡◌, List, [], ◌∷◌, length, take, drop, Option, some, none, leb, ◌&&◌,
  if◌then◌else◌,
}

pub data DiffTag : Type 0 where
  equal delete insert replace : DiffTag

-- `tag()`, `old_range()` and `new_range()`.
pub record DiffOp : Type 0 where
  pub tag : DiffTag
  pub old_start : ℕ
  pub old_end : ℕ
  pub new_start : ℕ
  pub new_end : ℕ

-- `capture_diff_slices` with the Patience algorithm, at the two types it is called at.
pub record Differ : Type 0 where
  pub diff_hashes : List ℕ → List ℕ → List DiffOp
  pub diff_anchors : List (List ℕ) → List (List ℕ) → List DiffOp

-- The elements that indexing by a range visits; `none` is an index out of bounds.
abbrev pub range_of : {A : Type 0} → List A → ℕ → ℕ → Option (List A)
range_of xs start end =
    if leb start end && leb end (length xs) then some (take (end - start) (drop start xs)) else none

module _ {A : Type 0} (old new : List A) where
  -- What an operation's tag says of its two ranges.
  abbrev pub FitsTag : DiffOp → DiffTag → Type 0
  FitsTag op equal =
      take (op.old_end - op.old_start) (drop op.old_start old)
      ≡ take (op.new_end - op.new_start) (drop op.new_start new)
  FitsTag op delete = (op.new_end ≡ op.new_start)
  FitsTag op insert = (op.old_end ≡ op.old_start)
  FitsTag op replace = Unit {0}

  -- The operations cover both lists from the two positions on, in order and without gaps, and
  -- those tagged equal join equal elements.
  abbrev pub IsScript : ℕ → ℕ → List DiffOp → Type 0
  IsScript i j [] = (i ≡ length old) × (j ≡ length new)
  IsScript i j (op ∷ ops) =
      (op.old_start ≡ i)
      × (op.new_start ≡ j)
      × (op.old_start ≤ op.old_end)
      × (op.old_end ≤ length old)
      × (op.new_start ≤ op.new_end)
      × (op.new_end ≤ length new)
      × FitsTag op op.tag
      × IsScript op.old_end op.new_end ops
