-- ===== src/Prelude/Dict.antt =====
-- Hash maps by a text or path: lists of pairs with one entry for a key.
use frances.Prelude.Tests.{if◌then◌else◌, eq_list, eq_list_refl, Bool-cases}
use Prim.Native.Nat.{ℕ}
use mathlib.Core.Path.{◌≡◌, refl}
use mathlib.Core.Logic.{inl, inr}
use mathlib.Core.List.{List, [], ◌∷◌}
use mathlib.Core.Option.{Option, none, some}

module _ {V : Type 0} where
  unfoldable pub lookup : List (List ℕ × V) → List ℕ → Option V
  lookup [] k = none
  lookup ((j, v) ∷ d) k = if eq_list j k then some v else lookup d k

  unfoldable pub remove : List (List ℕ × V) → List ℕ → List (List ℕ × V)
  remove [] k = []
  remove ((j, v) ∷ d) k = let rest = remove d k in if eq_list j k then rest else (j, v) ∷ rest

  unfoldable pub insert : List (List ℕ × V) → List ℕ → V → List (List ℕ × V)
  unfolding remove
  insert d k v = (k, v) ∷ remove d k

  pub lookup-remove : (d : List (List ℕ × V)) (k : List ℕ) → lookup (remove d k) k ≡ none
  unfolding lookup remove
  lookup-remove [] k = refl
  lookup-remove ((j, v) ∷ d) k = elim (Bool-cases (eq_list j k)) [
    | inl e ↦ rw e (lookup-remove d k)
    | inr e ↦ rw (e, e) (lookup-remove d k)
  ]

  pub lookup-insert :
      (d : List (List ℕ × V)) (k : List ℕ) (v : V) → lookup (insert d k v) k ≡ some v
  unfolding lookup insert
  lookup-insert d k v = rw (eq_list_refl k)
