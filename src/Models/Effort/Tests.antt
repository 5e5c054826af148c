-- ===== src/Models/Effort/Tests.antt =====
-- Efforts for the labels of the preset `openai`.
use frances.Prelude.{ℕ, ◌≡◌, refl, List, [], ◌∷◌, ok, some, arith, length, get_elem?}
use frances.Text.{Text, codes}
use frances.Models.Effort.{EffortTiers, NormalizedEffort, openai, tier_points, label_for}
use frances.Models.Effort.Nearest.{IsBest, label_for-IsBest}

abbrev half : NormalizedEffort
half = record { value = 50 }

label_for-openai : label_for openai half ≡ ok (codes "medium")
unfolding label_for openai
label_for-openai = refl

abbrev two : EffortTiers
two = record { labels = codes "low" ∷ codes "high" ∷ [] }

label_for-IsBest_example :
    (points : List ℕ) × (best : ℕ) × (label : Text) × (tier_points 2 ≡ ok points)
    × (length points ≡ 2)
    × IsBest 50 points best
    × (get_elem? two.labels best ≡ some label)
    × (label_for two half ≡ ok label)
label_for-IsBest_example = label_for-IsBest two half (omega arith)
