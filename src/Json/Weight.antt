-- ===== src/Json/Weight.antt =====
-- A measure of JSON values: a value that a text is parsed to weighs no more than the text is long.
use frances.Prelude.{ℕ, suc, ◌+◌, ◌≤◌, ◌≡◌, Option, some, length}
use frances.Text.{Text}
use frances.Json.{
  Value, null, bool, number, string, array, object, Items, nil, item, Fields, end, field,
}

unfoldable mutual
  pub weight : Value → ℕ
  weight null = 1
  weight (bool b) = 1
  weight (number n) = 1
  weight (string s) = suc (length s)
  weight (array items) = suc (weight_items items)
  weight (object fields) = suc (weight_fields fields)

  pub weight_items : Items → ℕ
  weight_items nil = 0
  weight_items (item v items) = weight v + weight_items items

  pub weight_fields : Fields → ℕ
  weight_fields end = 0
  weight_fields (field k v fields) = weight v + weight_fields fields

-- `serde_json::from_str`, with the brackets and quotes of JSON longer than what they hold.
pub record IsParser (parse : Text → Option Value) : Type 0 where
  pub shorter : (s : Text) (v : Value) → parse s ≡ some v → weight v ≤ length s
