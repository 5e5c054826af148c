-- ===== src/Edit/Anchor/Rank.antt =====
-- The canonical order of the anchors: an anchor's rank, its place in it, is the number that its
-- slots spell in bijective base 2048, with the digits 1 to 2048.
use frances.Prelude.{
  ℕ, ◌+◌, ◌-◌, ◌*◌, ◌≡◌, ◌≢◌, refl, sym, ap, ap₂, ◌∙◌, [], ◌∷◌, ◌++◌, none, some, Option-cases, inl,
  inr, arith, All, All-append, ltb, ◌⊎◌, true, false,
}
use mathlib.Core.List.{reverse, reverse-reverse, reverse-cons}
use frances.Anchors.Digits.{IsData, div_unique}
use frances.Edit.Anchor.{Anchor, first_data_idx, last_data_idx, first, reset, grow, increment}

-- What the parser, the codec and `first` build: one data word at least.
pub record IsAnchor (a : Anchor) : Type 0 where
  pub nonempty : a ≢ []
  pub words : All IsData a

unfoldable pub rank_from : ℕ → Anchor → ℕ
rank_from acc [] = acc
rank_from acc (d ∷ ds) = rank_from (acc * 2048 + (d - first_data_idx + 1)) ds

abbrev pub rank : Anchor → ℕ
rank a = rank_from 0 a

rank_from-grow-none :
    (acc : ℕ) (ds : Anchor)
    → All IsData ds
    → grow ds ≡ none
    → rank_from (acc + 1) (reset ds) ≡ rank_from acc ds + 1
unfolding grow rank_from
rank_from-grow-none acc [] h e = refl
rank_from-grow-none acc (d ∷ ds) h e =
    let full : (grow ds ≡ none) × (ltb d last_data_idx ≡ false) = ground arith in
    let top : acc * 2048 + (d - first_data_idx + 1) + 1 ≡ (acc + 1) * 2048 + 1 = ground arith in
    rw (rank_from, ← top)
      (rank_from-grow-none (acc * 2048 + (d - first_data_idx + 1)) ds h.1 full.0)

rank_from-grow :
    (acc : ℕ) (ds es : Anchor)
    → All IsData ds
    → grow ds ≡ some es
    → rank_from acc es ≡ rank_from acc ds + 1
unfolding grow rank_from
rank_from-grow acc [] es h e = cc
rank_from-grow acc (d ∷ ds) es h e = elim (Option-cases (grow ds)) [
  | inl full ↦
      let step : (ltb d last_data_idx ≡ true) × (es ≡ (d + 1) ∷ reset ds) = ground arith in
      let next : acc * 2048 + (d + 1 - first_data_idx + 1)
          ≡ acc * 2048 + (d - first_data_idx + 1) + 1 =
        omega arith in
      rw (step.1, rank_from, next)
        (rank_from-grow-none (acc * 2048 + (d - first_data_idx + 1)) ds h.1 full)
  | inr (ds', more) ↦
      let same : es ≡ d ∷ ds' = ground arith in
      rw (same, rank_from) (rank_from-grow (acc * 2048 + (d - first_data_idx + 1)) ds ds' h.1 more)
]

snoc_first : (a : Anchor) → reset a ++ first_data_idx ∷ [] ≡ first_data_idx ∷ reset a
snoc_first [] = refl
snoc_first (d ∷ ds) = ap (◌∷◌ first_data_idx) (snoc_first ds)

increment_cases :
    (a : Anchor)
    → ((b : Anchor) × (grow a ≡ some b) × (increment a ≡ b))
      ⊎ ((grow a ≡ none) × (increment a ≡ first_data_idx ∷ reset a))
unfolding increment
increment_cases a = elim (Option-cases (grow a)) [
  | inl full ↦ inr (full, rw (full, increment) (snoc_first a))
  | inr (b, more) ↦ inl (b, more, rw (more, increment))
]

-- `increment` takes a valid anchor to the next rank.
pub rank-increment : (a : Anchor) → IsAnchor a → rank (increment a) ≡ rank a + 1
rank-increment a h = elim (increment_cases a) [
  | inl (b, more, e) ↦ rw e (rank_from-grow 0 a b h.words more)
  | inr (full, e) ↦ rw e (unfold rank_from in rank_from-grow-none 0 a h.words full)
]

reset-IsData : (a : Anchor) → All IsData (reset a)
reset-IsData [] = tt
reset-IsData (d ∷ ds) = ((omega arith, omega arith), reset-IsData ds)

grow-IsData : (a b : Anchor) → All IsData a → grow a ≡ some b → All IsData b
unfolding grow
grow-IsData [] b h e = cc
grow-IsData (d ∷ ds) b h e = elim (Option-cases (grow ds)) [
  | inl full ↦
      let step : (ltb d last_data_idx ≡ true) × (b ≡ (d + 1) ∷ reset ds) = ground arith in
      rw step.1 ((omega arith, ground arith), reset-IsData ds)
  | inr (ds', more) ↦
      let same : b ≡ d ∷ ds' = ground arith in rw same (h.0, grow-IsData ds ds' h.1 more)
]

-- `increment` takes a valid anchor to a valid one.
pub increment-IsAnchor : (a : Anchor) → IsAnchor a → IsAnchor (increment a)
increment-IsAnchor a h = record {
  nonempty = λ e. unfold rank_from in omega (arith, rank-increment a h, ap rank e);
  words = elim (increment_cases a) [
    | inl (b, more, e) ↦ rw e (grow-IsData a b h.words more)
    | inr (full, e) ↦ rw e ((omega arith, omega arith), reset-IsData a)
  ];
}

pub first-IsAnchor : IsAnchor first
first-IsAnchor = record { nonempty = λ e. cc; words = ((omega arith, omega arith), tt) }

-- The rank, slot by slot from the last one.
rank_reversed : Anchor → ℕ
rank_reversed [] = 0
rank_reversed (d ∷ ds) = rank_reversed ds * 2048 + (d - first_data_idx + 1)

rank_from_snoc :
    (acc : ℕ) (xs : Anchor) (d : ℕ)
    → rank_from acc (xs ++ d ∷ []) ≡ rank_from acc xs * 2048 + (d - first_data_idx + 1)
unfolding rank_from
rank_from_snoc acc [] d = refl
rank_from_snoc acc (x ∷ xs) d = rank_from_snoc (acc * 2048 + (x - first_data_idx + 1)) xs d

rank-reverse : (zs : Anchor) → rank (reverse zs) ≡ rank_reversed zs
unfolding rank_reversed
rank-reverse [] = unfold rank_from in refl
rank-reverse (z ∷ zs) = rw (reverse-cons z zs, rank_from_snoc) (omega (arith, rank-reverse zs))

rank_reversed_injective :
    (xs ys : Anchor) → All IsData xs → All IsData ys → rank_reversed xs ≡ rank_reversed ys → xs ≡ ys
unfolding rank_reversed
rank_reversed_injective [] [] h k e = refl
rank_reversed_injective [] (y ∷ ys) h k e = absurd (omega arith)
rank_reversed_injective (x ∷ xs) [] h k e = absurd (omega arith)
rank_reversed_injective (x ∷ xs) (y ∷ ys) h k e =
    let (p, q) =
      div_unique 2048 (rank_reversed xs) (rank_reversed ys) (x - first_data_idx)
        (y - first_data_idx) (omega arith) (omega arith) (omega arith) in
    let head : x ≡ y = omega arith in ap₂ ◌∷◌ head (rank_reversed_injective xs ys h.1 k.1 p)

All-reverse : (xs : Anchor) → All IsData xs → All IsData (reverse xs)
All-reverse [] h = tt
All-reverse (x ∷ xs) h =
    rw (reverse-cons x xs) (All-append IsData (reverse xs) _ (All-reverse xs h.1) (h.0, tt))

-- Valid anchors of one rank are equal.
pub rank_injective : (a b : Anchor) → IsAnchor a → IsAnchor b → rank a ≡ rank b → a ≡ b
rank_injective a b h k e =
    let p : rank (reverse (reverse a)) ≡ rank (reverse (reverse b)) =
      rw (reverse-reverse a, reverse-reverse b) e in
    let q : reverse a ≡ reverse b =
      rank_reversed_injective _ _ (All-reverse a h.words) (All-reverse b k.words)
        (sym (rank-reverse (reverse a)) ∙ p ∙ rank-reverse (reverse b)) in
    sym (reverse-reverse a) ∙ ap reverse q ∙ reverse-reverse b
