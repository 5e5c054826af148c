-- ===== src/Models/Effort/Nearest.antt =====
-- crates/frances-models-llm/src/effort.rs: the label of an effort is the nearest.
use frances.Prelude.{
  ℕ, zero, suc, ◌-◌, ◌≤◌, ◌<◌, ◌≡◌, refl, ap, inl, inr, List, [], ◌∷◌, ◌++◌, some, true, false, leb,
  ltb, ◌==◌, drop, length, length-append, get_elem?, get_elem?-drop, get_elem?-in, get_elem?-out,
  drop-nil, ok, Bool-cases, arith, lt_of_ltb, le_of_ltb, eq_of_test, le_of_leb, lt_of_leb,
}
use frances.Text.{Text}
use frances.Models.Effort.{
  EffortTiers, NormalizedEffort, interior_from, interior, tier_points, abs_diff, nearest, best_of,
  label_for,
}

length-interior_from : (count index n : ℕ) → length (interior_from count index n) ≡ n
unfolding interior_from
length-interior_from count index zero = refl
length-interior_from count index (suc n) = omega (arith, length-interior_from count (suc index) n)

length-interior : (count : ℕ) → length (interior count) ≡ count
length-interior count = elim (Bool-cases (count == 0)) [
  | inl e ↦ rw (e) (ground arith)
  | inr e ↦ elim (Bool-cases (count == 1)) [
    | inl f ↦ rw (e, f) (ground arith)
    | inr f ↦ rw (e, f) (length-interior_from count 0 count)
  ]
]

-- `p` is as near as the points before `limit`, and nearer than those of them behind `best`.
abbrev Beats : ℕ → List ℕ → ℕ → ℕ → ℕ → Type 0
Beats target points best p limit =
    (j q : ℕ)
    → j < limit
    → get_elem? points j ≡ some q
    → (abs_diff target p ≤ abs_diff target q) × (best < j → abs_diff target p < abs_diff target q)

abbrev pub IsBest : ℕ → List ℕ → ℕ → Type 0
IsBest target points best =
    (p : ℕ) × (get_elem? points best ≡ some p) × Beats target points best p (length points)

lt_of_ne : (a b : ℕ) → a < suc b → a == b ≡ false → a < b
lt_of_ne a b l h = ground arith

same_at :
    (points : List ℕ) (i j x q : ℕ)
    → get_elem? points i ≡ some x
    → get_elem? points j ≡ some q
    → j ≡ i
    → q ≡ x
same_at points i j x q g h e = cc

module _ (target : ℕ) (all : List ℕ) where
  closer :
      (best index p x : ℕ)
      → get_elem? all index ≡ some x
      → leb (abs_diff target x) (abs_diff target p) ≡ true
      → Beats target all best p index
      → Beats target all index x (suc index)
  closer best index p x at_index e h j q l g = elim (Bool-cases (j == index)) [
    | inl f ↦
        let here = eq_of_test j index f in
        let same = ap (abs_diff target) (same_at all index j x q at_index g here) in
        (omega (arith, same), λ b. absurd (omega (arith, here, b)))
    | inr f ↦
        let near = (h j q (lt_of_ne j index l f) g).0 in
        let le = le_of_leb (abs_diff target x) (abs_diff target p) e in
        (omega (arith, near, le), λ b. absurd (omega (arith, b, l)))
  ]

  farther :
      (best index p x : ℕ)
      → get_elem? all index ≡ some x
      → leb (abs_diff target x) (abs_diff target p) ≡ false
      → Beats target all best p index
      → Beats target all best p (suc index)
  farther best index p x at_index e h j q l g = elim (Bool-cases (j == index)) [
    | inl f ↦
        let same =
          ap (abs_diff target) (same_at all index j x q at_index g (eq_of_test j index f)) in
        let less = lt_of_leb (abs_diff target x) (abs_diff target p) e in
        (omega (arith, same, less), λ b. omega (arith, same, less))
    | inr f ↦ h j q (lt_of_ne j index l f) g
  ]

  nearest-IsBest :
      (best index p : ℕ) (points : List ℕ)
      → drop index all ≡ points
      → get_elem? all best ≡ some p
      → Beats target all best p index
      → IsBest target all (nearest target best (abs_diff target p) index points)
  unfolding nearest
  nearest-IsBest best index p [] d g h =
      (p, g, λ j q l f. h j q (omega (arith, drop-nil index all d)) f)
  nearest-IsBest best index p (x ∷ points) d g h =
      let next = get_elem?-drop index all x points d in
      elim (Bool-cases (leb (abs_diff target x) (abs_diff target p))) [
        | inl e ↦ rw e (
            nearest-IsBest index (suc index) x points next.1 next.0
              (closer best index p x next.0 e h))
        | inr e ↦
            rw e (
              nearest-IsBest best (suc index) p points next.1 g (farther best index p x next.0 e h))
      ]

-- The points of `n` labels, at least two.
abbrev points_of : ℕ → List ℕ
points_of n = 0 ∷ interior (n - 2) ++ 100 ∷ []

at_least_two : (n : ℕ) → 2 ≤ n → ltb n 2 ≡ false
at_least_two n l = ground arith

length-points_of : (n : ℕ) → 2 ≤ n → length (points_of n) ≡ n
length-points_of n l =
    omega (arith, length-append (interior (n - 2)) (100 ∷ []), length-interior (n - 2))

first-Beats : (target : ℕ) (points : List ℕ) → Beats target (0 ∷ points) 0 0 1
first-Beats target points zero q l g =
    let same = ap (abs_diff target) (same_at (0 ∷ points) 0 0 0 q refl g refl) in
    (omega (arith, same), λ b. absurd (omega arith))
first-Beats target points (suc j) q l g = absurd (omega arith)

in_range : (points : List ℕ) (i p : ℕ) → get_elem? points i ≡ some p → i < length points
in_range points i p g = elim (Bool-cases (ltb i (length points))) [
  | inl e ↦ lt_of_ltb i (length points) e
  | inr e ↦ cc (g, get_elem?-out points i (le_of_ltb i (length points) e))
]

-- For at least two labels `label_for` does not panic. It returns the label whose point is nearest to
-- the effort, and of two nearest points that of the higher.
pub label_for-IsBest :
    (tiers : EffortTiers) (effort : NormalizedEffort)
    → 2 ≤ length tiers.labels
    → (points : List ℕ) × (best : ℕ) × (label : Text) × (tier_points (length tiers.labels)
        ≡ ok points)
      × (length points ≡ length tiers.labels)
      × IsBest effort.value points best
      × (get_elem? tiers.labels best ≡ some label)
      × (label_for tiers effort ≡ ok label)
unfolding label_for tier_points best_of
label_for-IsBest tiers effort l =
    let n = length tiers.labels in
    let points = points_of n in
    let best = nearest effort.value 0 (abs_diff effort.value 0) 1 (interior (n - 2) ++ 100 ∷ []) in
    let found =
      nearest-IsBest effort.value points 0 1 0 (interior (n - 2) ++ 100 ∷ []) refl refl
        (first-Beats effort.value (interior (n - 2) ++ 100 ∷ [])) in
    let (label, at_best) =
      get_elem?-in tiers.labels best
        (omega (arith, length-points_of n l, in_range points best found.0 found.1)) in
    let many = at_least_two n l in
    (
      points,
      best,
      label,
      rw many refl,
      length-points_of n l,
      found,
      at_best,
      rw (many, at_best) refl,
    )
