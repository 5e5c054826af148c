-- ===== src/Text/Split.antt =====
-- Splitting a joined text gives the parts back.
use frances.Prelude.{ℕ, ◌≡◌, ◌≢◌, refl, ap, List, [], ◌∷◌, ◌++◌, All, arith, some}
use frances.Text.{Text, split_once, split_parts, split, join}

-- The separator does not stand in the text.
abbrev pub IsFree : ℕ → Text → Type 0
IsFree sep [] = Unit {0}
IsFree sep (c ∷ cs) = (c ≢ sep) × IsFree sep cs

pub split_once-append :
    (sep : ℕ) (l r : Text) → IsFree sep l → split_once sep (l ++ sep ∷ r) ≡ some (l, r)
unfolding split_once
split_once-append sep [] r h = ground arith
split_once-append sep (c ∷ cs) r h = ground (arith, split_once-append sep cs r h.1)

split_parts-free : (sep : ℕ) (s : Text) → IsFree sep s → split_parts sep s ≡ (s, [])
unfolding split_parts
split_parts-free sep [] h = refl
split_parts-free sep (c ∷ cs) h = ground (arith, split_parts-free sep cs h.1)

split_parts-append :
    (sep : ℕ) (l r : Text)
    → IsFree sep l
    → split_parts sep (l ++ sep ∷ r) ≡ (l, (split_parts sep r).0 ∷ (split_parts sep r).1)
unfolding split_parts
split_parts-append sep [] r h = ground arith
split_parts-append sep (c ∷ cs) r h = ground (arith, split_parts-append sep cs r h.1)

pub split-join :
    (sep : ℕ) (s : Text) (ss : List Text)
    → All (IsFree sep) (s ∷ ss)
    → split sep (join (sep ∷ []) (s ∷ ss)) ≡ s ∷ ss
unfolding split join
split-join sep s [] h = rw (split_parts-free sep s h.0)
split-join sep s (t ∷ ts) h =
    rw (split_parts-append sep s (join (sep ∷ []) (t ∷ ts)) h.0)
      (ap (◌∷◌ s) (split-join sep t ts h.1))
