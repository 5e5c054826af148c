-- ===== src/Json.antt =====
-- JSON values as the crate `serde_json` gives them to crates/frances-core and crates/frances-models-llm.
pub mod Weight
use frances.Prelude.{
  ℕ, suc, ◌+◌, List, [], ◌∷◌, Option, none, some, Bool, if◌then◌else◌, eq_list, length,
}
use frances.Text.{Text}

-- A number has its value when that is a u64. A map has each key once.
mutual
  pub data Value : Type 0 where
    null : Value
    bool : Bool → Value
    number : Option ℕ → Value
    string : Text → Value
    array : Items → Value
    object : Fields → Value

  pub data Items : Type 0 where
    nil : Items
    item : Value → Items → Items

  pub data Fields : Type 0 where
    end : Fields
    field : Text → Value → Fields → Fields

-- `Map::get`, and `Value::get` on any value.
unfoldable pub get : Fields → Text → Option Value
get end key = none
get (field k v fields) key = if eq_list k key then some v else get fields key

unfoldable pub get_value : Value → Text → Option Value
unfolding get
get_value (object fields) key = get fields key
get_value v key = none

abbrev pub as_str : Option Value → Option Text
as_str (some (string s)) = some s
as_str v = none

abbrev pub as_u64 : Option Value → Option ℕ
as_u64 (some (number n)) = n
as_u64 v = none

-- The texts among the items of an array.
abbrev texts_of : Items → List Text
texts_of nil = []
texts_of (item (string s) items) = s ∷ texts_of items
texts_of (item v items) = texts_of items

abbrev pub as_texts : Option Value → List Text
as_texts (some (array items)) = texts_of items
as_texts v = []
