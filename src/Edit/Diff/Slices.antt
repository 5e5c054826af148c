-- ===== src/Edit/Diff/Slices.antt =====
-- Consecutive ranges of a list.
use frances.Prelude.{
  ℕ, zero, suc, ◌+◌, ◌-◌, ◌≤◌, ◌≡◌, refl, sym, ap, ◌∙◌, List, [], ◌∷◌, ◌++◌, length, take, drop,
  map, take-append-drop, arith, some,
}
use native.Mathlib.Nat.{zero-add}
use frances.Edit.Diff.{range_of}

module _ {A : Type 0} where
  abbrev pub slice : ℕ → ℕ → List A → List A
  slice i j xs = take (j - i) (drop i xs)

  drop_nil : (n : ℕ) → drop n (let x : List A = [] in x) ≡ []
  drop_nil zero = refl
  drop_nil (suc n) = refl

  drop-drop : (m n : ℕ) (xs : List A) → drop n (drop m xs) ≡ drop (m + n) xs
  drop-drop zero n xs = rw zero-add
  drop-drop (suc m) n [] = rw (drop_nil n, drop_nil (suc m + n))
  drop-drop (suc m) n (x ∷ xs) =
      let e : suc m + n ≡ suc (m + n) = omega arith in rw (drop-drop m n xs, e)

  pub slice-append-drop : (i j : ℕ) (xs : List A) → i ≤ j → slice i j xs ++ drop j xs ≡ drop i xs
  slice-append-drop i j xs h =
      let e : i + (j - i) ≡ j = omega arith in
      ap (λ (k : ℕ). slice i j xs ++ drop k xs) (sym e)
      ∙ ap (◌++◌ (slice i j xs)) (sym (drop-drop i (j - i) xs))
      ∙ take-append-drop (j - i) (drop i xs)

  pub slice_empty : (i j : ℕ) (xs : List A) → j ≡ i → slice i j xs ≡ []
  slice_empty i j xs h = let e : j - i ≡ 0 = omega arith in rw e

  pub drop_all : (xs : List A) → drop (length xs) xs ≡ []
  drop_all [] = refl
  drop_all (x ∷ xs) = drop_all xs

  pub range_of_lem :
      (xs : List A) (i j : ℕ) → i ≤ j → j ≤ length xs → range_of xs i j ≡ some (slice i j xs)
  range_of_lem xs i j h k = ground arith

module _ {A B : Type 0} (f : A → B) where
  map-take : (n : ℕ) (xs : List A) → map f (take n xs) ≡ take n (map f xs)
  map-take zero xs = refl
  map-take (suc n) [] = refl
  map-take (suc n) (x ∷ xs) = ap (◌∷◌ (f x)) (map-take n xs)

  map-drop : (n : ℕ) (xs : List A) → map f (drop n xs) ≡ drop n (map f xs)
  map-drop zero xs = refl
  map-drop (suc n) [] = refl
  map-drop (suc n) (x ∷ xs) = map-drop n xs

  pub map-slice : (i j : ℕ) (xs : List A) → map f (slice i j xs) ≡ slice i j (map f xs)
  map-slice i j xs = map-take (j - i) (drop i xs) ∙ ap (take (j - i)) (map-drop i xs)
