-- ===== src/Models/Effort.antt =====
-- crates/frances-models-llm/src/effort.rs: efforts in percent and the labels of a provider for them.
pub mod Nearest
pub mod Tests
use frances.Prelude.{
  ℕ, zero, suc, ◌+◌, ◌-◌, ◌*◌, ◌/◌, List, [], ◌∷◌, ◌++◌, Bool, true, false, if◌then◌else◌, ltb, leb,
  ◌==◌, ◌||◌, eq_list, length, get_elem?, Result, ok, err, panic, ◌>>=◌, ◌>>◌, fail_if, map_err,
  expect,
}
use frances.Text.{Text, codes, trim, is_empty}

pub record NormalizedEffort : Type 0 where
  pub value : ℕ

pub data InvalidNormalizedEffort : Type 0 where
  invalid_normalized_effort : ℕ → InvalidNormalizedEffort

abbrev pub max : ℕ
max = 100

unfoldable pub new_effort : ℕ → Result InvalidNormalizedEffort NormalizedEffort
new_effort value =
    if leb value max then ok (record { value = value }) else err (invalid_normalized_effort value)

pub record EffortTiers : Type 0 where
  pub labels : List Text

abbrev any_empty : List Text → Bool
any_empty [] = false
any_empty (label ∷ labels) = is_empty (trim label) || any_empty labels

abbrev member : Text → List Text → Bool
member label [] = false
member label (seen ∷ labels) = eq_list seen label || member label labels

-- `unique.insert` fails on a label that was met before.
abbrev any_repeated : List Text → List Text → Bool
any_repeated unique [] = false
any_repeated unique (label ∷ labels) = member label unique || any_repeated (label ∷ unique) labels

unfoldable pub new_tiers : List Text → Result Text EffortTiers
new_tiers labels = do
  fail_if (ltb (length labels) 2) (codes "effort_tiers must contain at least two labels")
  fail_if (any_empty labels) (codes "effort_tiers labels must not be empty")
  fail_if (any_repeated [] labels) (codes "effort_tiers labels must be unique")
  ok (record { labels = labels })

unfoldable pub openai : EffortTiers
openai = record {
  labels =
      codes "none"
      ∷ codes "minimal"
      ∷ codes "low"
      ∷ codes "medium"
      ∷ codes "high"
      ∷ codes "xhigh"
      ∷ codes "max"
      ∷ [];
}

-- The points from `index` on, `n` of them.
unfoldable pub interior_from : ℕ → ℕ → ℕ → List ℕ
interior_from count index zero = []
interior_from count index (suc n) =
    (1 + (index * 98 + (count - 1) / 2) / (count - 1)) ∷ interior_from count (suc index) n

abbrev interior : ℕ → List ℕ
interior count =
    if count == 0 then [] else if count == 1 then 50 ∷ [] else interior_from count 0 count

-- Fewer than two labels underflow.
unfoldable pub tier_points : ℕ → Result Text (List ℕ)
unfolding interior_from
tier_points label_count =
    if ltb label_count 2 then panic else ok (0 ∷ interior (label_count - 2) ++ 100 ∷ [])

unfoldable pub abs_diff : ℕ → ℕ → ℕ
abs_diff a b = if ltb a b then b - a else a - b

-- The loop over the points, from `index` on.
unfoldable pub nearest : ℕ → ℕ → ℕ → ℕ → List ℕ → ℕ
unfolding abs_diff
nearest target best best_distance index [] = best
nearest target best best_distance index (point ∷ points) =
    let distance = abs_diff target point in
    let closer = nearest target index distance (suc index) points in
    let farther = nearest target best best_distance (suc index) points in
    if leb distance best_distance then closer else farther

unfoldable pub best_of : ℕ → List ℕ → Result Text ℕ
unfolding nearest abs_diff
best_of target [] = panic
best_of target (point ∷ points) = ok (nearest target 0 (abs_diff target point) 1 points)

unfoldable pub label_for : EffortTiers → NormalizedEffort → Result Text Text
unfolding tier_points best_of
label_for tiers effort = do
  points ← tier_points (length tiers.labels)
  best ← best_of effort.value points
  expect (get_elem? tiers.labels best)

-- What a configuration holds: the name of a preset, or labels.
pub data Raw : Type 0 where
  preset : Text → Raw
  labelled : List Text → Raw

-- A custom error has a message; that of an unknown preset quotes its name.
pub data DeserializeError : Type 0 where
  custom : Text → DeserializeError
  unknown_preset : Text → DeserializeError

unfoldable pub deserialize : Raw → Result DeserializeError EffortTiers
unfolding new_tiers openai
deserialize (preset name) =
    if eq_list name (codes "openai") then ok openai else err (unknown_preset name)
deserialize (labelled labels) = map_err custom (new_tiers labels)
