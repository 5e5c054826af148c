-- ===== src/Core/JsonRepair.antt =====
-- crates/frances-core/src/json_repair.rs: values that arrive encoded as JSON strings.
pub mod Unwrapped
mod Tests
use frances.Prelude.{
  ℕ, zero, suc, ◌+◌, Option, none, some, Bool, true, false, if◌then◌else◌, Result, ok, err, panic,
  ◌>>=◌, expect,
}
use frances.Text.{Text}
use frances.Json.{
  Value, null, bool, number, string, array, object, Items, nil, item, Fields, end, field,
}
use frances.Json.Weight.{weight}

abbrev pub as_container : Option Value → Option Value
as_container (some (array items)) = some (array items)
as_container (some (object fields)) = some (object fields)
as_container v = none

-- `map` over the items and over the fields; `none` when the function gives none.
unfoldable pub each_item : (Value → Option Value) → Items → Option Items
each_item f nil = some nil
each_item f (item v items) = elim (f v) [
  | none ↦ none
  | some w ↦ elim (each_item f items) [ none ↦ none | some rest ↦ some (item w rest) ]
]

unfoldable pub each_field : (Value → Option Value) → Fields → Option Fields
each_field f end = some end
each_field f (field k v fields) = elim (f v) [
  | none ↦ none
  | some w ↦ elim (each_field f fields) [ none ↦ none | some rest ↦ some (field k w rest) ]
]

abbrev array_of : Option Items → Option Value
array_of none = none
array_of (some items) = some (array items)

abbrev object_of : Option Fields → Option Value
object_of none = none
object_of (some fields) = some (object fields)

-- `parse` is `serde_json::from_str`.
module _ (parse : Text → Option Value) where
  -- The recursion, on fuel; `none` without.
  unfoldable pub unwrap_on : ℕ → Value → Option Value
  unfolding each_item each_field
  unwrap_on zero v = none
  unwrap_on (suc n) (string s) = elim (as_container (parse s)) [
    | none ↦ some (string s)
    | some inner ↦ unwrap_on n inner
  ]
  unwrap_on (suc n) (array items) = array_of (each_item (unwrap_on n) items)
  unwrap_on (suc n) (object fields) = object_of (each_field (unwrap_on n) fields)
  unwrap_on (suc n) v = some v

  unfoldable pub unwrap_stringified : Value → Option Value
  unfolding unwrap_on weight
  unwrap_stringified v = unwrap_on (weight v) v

  -- `from_value`, for the decoder and the test of its errors for `Category::Data`.
  unfoldable pub from_value :
      {T E : Type 0} → (Value → Result E T) → (E → Bool) → Value → Result E T
  unfolding unwrap_stringified
  from_value decode is_data v = elim (decode v) [
    | ok t ↦ ok t
    | err strict_err ↦
        let retried = expect (unwrap_stringified v) >>= decode in
        if is_data strict_err then retried else err strict_err
    | panic ↦ panic
  ]
