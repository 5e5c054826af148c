-- ===== src/Edit/Pool/Members.antt =====
-- How often an anchor stands in a list; a list without repetition.
use frances.Prelude.{
  ◌⊎◌, inl, inr, Bool-cases, ℕ, suc, ◌+◌, ◌≤◌, ◌≡◌, refl, List, [], ◌∷◌, ◌++◌, true, false,
  if◌then◌else◌, eq_list, eq_list_refl, arith,
}
use frances.Edit.Anchor.{Anchor}
use frances.Edit.Pool.{contains}

abbrev pub count : Anchor → List Anchor → ℕ
count a [] = 0
count a (b ∷ bs) = if eq_list b a then suc (count a bs) else count a bs

-- No anchor stands in the list twice.
abbrev pub IsDistinct : List Anchor → Type 0
IsDistinct xs = (a : Anchor) → count a xs ≤ 1

pub count-append : (a : Anchor) (xs ys : List Anchor) → count a (xs ++ ys) ≡ count a xs + count a ys
count-append a [] ys = omega arith
count-append a (x ∷ xs) ys = ground (arith, count-append a xs ys)

pub count_absent : (a : Anchor) (xs : List Anchor) → contains xs a ≡ false → count a xs ≡ 0
count_absent a [] h = refl
count_absent a (x ∷ xs) h = ground (arith, count_absent a xs)

pub count_present : (a : Anchor) (xs : List Anchor) → contains xs a ≡ true → 1 ≤ count a xs
count_present a [] h = cc
count_present a (x ∷ xs) h = ground (arith, count_present a xs)

pub absent_of_count : (a : Anchor) (xs : List Anchor) → count a xs ≡ 0 → contains xs a ≡ false
absent_of_count a [] h = refl
absent_of_count a (x ∷ xs) h = ground (arith, absent_of_count a xs)

pub present_of_count : (a : Anchor) (xs : List Anchor) → 1 ≤ count a xs → contains xs a ≡ true
present_of_count a [] h = absurd (omega arith)
present_of_count a (x ∷ xs) h = ground (arith, present_of_count a xs)

pub contains_cons_self : (a : Anchor) (xs : List Anchor) → contains (a ∷ xs) a ≡ true
contains_cons_self a xs = rw (eq_list_refl a)

pub contains-append_left :
    (a : Anchor) (xs ys : List Anchor) → contains xs a ≡ true → contains (xs ++ ys) a ≡ true
contains-append_left a xs ys h =
    present_of_count a (xs ++ ys) (omega (arith, count-append a xs ys, count_present a xs h))

pub contains-append_right :
    (a : Anchor) (xs ys : List Anchor) → contains ys a ≡ true → contains (xs ++ ys) a ≡ true
contains-append_right a xs ys h =
    present_of_count a (xs ++ ys) (omega (arith, count-append a xs ys, count_present a ys h))

pub contains-append_cases :
    (a : Anchor) (xs ys : List Anchor)
    → contains (xs ++ ys) a ≡ true
    → (contains xs a ≡ true) ⊎ (contains ys a ≡ true)
contains-append_cases a xs ys h = elim (Bool-cases (contains xs a)) [
  | inl e ↦ inl e
  | inr e ↦ inr (
      present_of_count a ys
        (omega (arith, count-append a xs ys, count_absent a xs e, count_present a (xs ++ ys) h)))
]

pub absent_left :
    (a : Anchor) (xs ys : List Anchor) → contains (xs ++ ys) a ≡ false → count a xs ≡ 0
absent_left a xs ys h = omega (arith, count-append a xs ys, count_absent a (xs ++ ys) h)
