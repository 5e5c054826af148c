-- ===== src/Text/Trim.antt =====
-- Trimming twice trims no more.
use frances.Prelude.{ℕ, ◌≡◌, refl, ap, ◌∙◌, [], ◌∷◌, ◌++◌, Bool-cases, inl, inr, false}
use mathlib.Core.List.{reverse, reverse-reverse, reverse-append, reverse-cons}
use frances.Text.{Text, is_whitespace, trim_start, trim_end, trim}

-- A text that begins with no white space.
abbrev pub IsTrimmed : Text → Type 0
IsTrimmed [] = Unit {0}
IsTrimmed (c ∷ cs) = is_whitespace c ≡ false

trim_start-IsTrimmed : (s : Text) → IsTrimmed (trim_start s)
unfolding trim_start
trim_start-IsTrimmed [] = tt
trim_start-IsTrimmed (c ∷ cs) = elim (Bool-cases (is_whitespace c)) [
  | inl e ↦ rw e (trim_start-IsTrimmed cs)
  | inr e ↦ rw e e
]

trim_start_trimmed : (s : Text) → IsTrimmed s → trim_start s ≡ s
unfolding trim_start
trim_start_trimmed [] h = refl
trim_start_trimmed (c ∷ cs) h = rw h

trim_start_stops :
    (zs : Text) (c : ℕ)
    → is_whitespace c ≡ false
    → (ys : Text) × (trim_start (zs ++ c ∷ []) ≡ ys ++ c ∷ [])
unfolding trim_start
trim_start_stops [] c h = ([], rw h)
trim_start_stops (z ∷ zs) c h = elim (Bool-cases (is_whitespace z)) [
  | inl e ↦ rw e (trim_start_stops zs c h)
  | inr e ↦ rw e (z ∷ zs, refl)
]

-- White space removed behind a first character leaves that character first.
IsTrimmed-trim_end : (s : Text) → IsTrimmed s → IsTrimmed (trim_end s)
unfolding trim_end trim_start
IsTrimmed-trim_end [] h = tt
IsTrimmed-trim_end (c ∷ cs) h =
    let (ys, e) = trim_start_stops (reverse cs) c h in rw (reverse-cons c cs, e, reverse-append) h

trim_end_twice : (s : Text) → trim_end (trim_end s) ≡ trim_end s
unfolding trim_end
trim_end_twice s =
    rw (reverse-reverse (trim_start (reverse s)))
      (ap reverse (trim_start_trimmed _ (trim_start-IsTrimmed (reverse s))))

pub trim-trim : (s : Text) → trim (trim s) ≡ trim s
unfolding trim
trim-trim s =
    ap trim_end (trim_start_trimmed _ (IsTrimmed-trim_end _ (trim_start-IsTrimmed s)))
    ∙ trim_end_twice (trim_start s)
