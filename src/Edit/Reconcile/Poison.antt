-- ===== src/Edit/Reconcile/Poison.antt =====
-- Poisoned hashes match no line on disk, so a hinted line is never carried over.
use frances.Prelude.{
  ℕ, zero, suc, ◌+◌, ◌-◌, ◌<◌, ◌≤◌, ◌≡◌, ◌≢◌, refl, ap, ap₂, ◌∙◌, List, [], ◌∷◌, length, take, drop,
  true, false, if◌then◌else◌, eq_list, eq_list_iff, All, Bool-cases, inl, inr, arith,
}
use native.Mathlib.Nat.{add-zero}
use frances.Edit.Anchor.{Anchor}
use frances.Edit.Pool.{contains}
use frances.Edit.Pool.Members.{count}
use frances.Edit.State.{LineEntry, hashes, anchors}
use frances.Edit.Diff.Slices.{slice}
use frances.Edit.Reconcile.{poison, poisoned}

-- A hash that is the poison of none of the first `n` lines.
abbrev pub IsReal : ℕ → ℕ → Type 0
IsReal n h = (i : ℕ) → i < n → poison i ≢ h

pub length-poisoned :
    (ex : List Anchor) (k : ℕ) (les : List LineEntry) → length (poisoned ex k les) ≡ length les
unfolding poisoned
length-poisoned ex k [] = refl
length-poisoned ex k (le ∷ les) = ap suc (length-poisoned ex (suc k) les)

take-poisoned :
    (ex : List Anchor) (k n : ℕ) (les : List LineEntry)
    → take n (poisoned ex k les) ≡ poisoned ex k (take n les)
unfolding poisoned
take-poisoned ex k zero les = refl
take-poisoned ex k (suc n) [] = refl
take-poisoned ex k (suc n) (le ∷ les) =
    ap (◌∷◌ (if contains ex le.anchor then poison k else le.hash)) (take-poisoned ex (suc k) n les)

drop-poisoned :
    (ex : List Anchor) (k n : ℕ) (les : List LineEntry)
    → drop n (poisoned ex k les) ≡ poisoned ex (k + n) (drop n les)
unfolding poisoned
drop-poisoned ex k zero les = rw add-zero
drop-poisoned ex k (suc n) [] = refl
drop-poisoned ex k (suc n) (le ∷ les) =
    let e : k + suc n ≡ suc k + n = omega arith in rw e (drop-poisoned ex (suc k) n les)

pub slice-poisoned :
    (ex : List Anchor) (k i j : ℕ) (les : List LineEntry)
    → slice i j (poisoned ex k les) ≡ poisoned ex (k + i) (slice i j les)
slice-poisoned ex k i j les =
    ap (take (j - i)) (drop-poisoned ex k i les) ∙ take-poisoned ex (k + i) (j - i) (drop i les)

-- Lines whose poisoned hashes are hashes on disk are not poisoned.
pub poisoned-IsReal :
    (ex : List Anchor) (n k : ℕ) (les : List LineEntry) (xs : List ℕ)
    → length les ≤ n - k
    → All (IsReal n) xs
    → poisoned ex k les ≡ xs
    → (hashes les ≡ xs) × ((a : Anchor) → contains ex a ≡ true → count a (anchors les) ≡ 0)
unfolding poisoned
poisoned-IsReal ex n k [] xs h real e = (e, λ a m. refl)
poisoned-IsReal ex n k (le ∷ les) [] h real e = cc
poisoned-IsReal ex n k (le ∷ les) (x ∷ xs) h real e = elim (Bool-cases (contains ex le.anchor)) [
  | inl bad ↦ let clash : poison k ≡ x = ground arith in absurd (real.0 k (omega arith) clash)
  | inr good ↦
      let tail : poisoned ex (suc k) les ≡ xs = cc in
      let head : le.hash ≡ x = ground arith in
      let (p, q) = poisoned-IsReal ex n (suc k) les xs (omega arith) real.1 tail in
      (ap₂ ◌∷◌ head p, λ a m. other a m good (q a m))
]
  where
    other :
        (a : Anchor)
        → contains ex a ≡ true
        → contains ex le.anchor ≡ false
        → count a (anchors les) ≡ 0
        → count a (le.anchor ∷ anchors les) ≡ 0
    other a m good z = elim (Bool-cases (eq_list le.anchor a)) [
      | inl e' ↦ ground (arith, eq_list_iff le.anchor a)
      | inr e' ↦ rw e' z
    ]
