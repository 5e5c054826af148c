-- ===== src/Edit/Anchor/Enumerated.antt =====
-- crates/frances-edit/src/anchor.rs: `increment` goes through all anchors.
use frances.Prelude.{ℕ, zero, suc, ◌+◌, ◌-◌, ◌*◌, ◌≤◌, ◌≡◌, refl, ap, [], ◌∷◌, arith}
use frances.Edit.Anchor.{Anchor, first_data_idx, first, increment}
use frances.Edit.Anchor.Rank.{
  IsAnchor, rank_from, rank, rank-increment, increment-IsAnchor, rank_injective, first-IsAnchor,
}

-- The anchor after `n` increments.
unfoldable pub incremented : ℕ → Anchor → Anchor
incremented zero a = a
incremented (suc n) a = incremented n (increment a)

incremented-IsAnchor : (n : ℕ) (a : Anchor) → IsAnchor a → IsAnchor (incremented n a)
unfolding incremented
incremented-IsAnchor zero a h = h
incremented-IsAnchor (suc n) a h = incremented-IsAnchor n (increment a) (increment-IsAnchor a h)

rank-incremented : (n : ℕ) (a : Anchor) → IsAnchor a → rank (incremented n a) ≡ rank a + n
unfolding incremented
rank-incremented zero a h = omega arith
rank-incremented (suc n) a h =
    omega (arith, rank-incremented n (increment a) (increment-IsAnchor a h), rank-increment a h)

rank_from_le : (acc : ℕ) (a : Anchor) → acc ≤ rank_from acc a
unfolding rank_from
rank_from_le acc [] = omega arith
rank_from_le acc (d ∷ ds) = omega (arith, rank_from_le (acc * 2048 + (d - first_data_idx + 1)) ds)

rank-positive : (a : Anchor) → IsAnchor a → 1 ≤ rank a
unfolding rank_from
rank-positive [] h = absurd (h.nonempty refl)
rank-positive (d ∷ ds) h = omega (arith, rank_from_le (0 * 2048 + (d - first_data_idx + 1)) ds)

-- `increment` reaches each valid anchor from `first` after some number of steps, and after no other.
pub incremented-first :
    (a : Anchor)
    → IsAnchor a
    → (n : ℕ) × (incremented n first ≡ a) × ((m : ℕ) → incremented m first ≡ a → m ≡ n)
unfolding rank_from
incremented-first a h =
    let n = rank a - rank first in
    (
      n,
      rank_injective (incremented n first) a (incremented-IsAnchor n first first-IsAnchor) h
          (omega (arith, rank-incremented n first first-IsAnchor, rank-positive a h)),
      λ m e. omega (arith, rank-incremented m first first-IsAnchor, ap rank e),
    )
