-- ===== src/Models/ToolArgs.antt =====
-- crates/frances-models-llm/src/tool_args.rs: the arguments of tool calls and the schemas of tools.
pub mod Shape
mod Tests
use frances.Prelude.{
  List, [], ◌∷◌, Option, none, some, Bool, true, false, if◌then◌else◌, ◌&&◌, ◌||◌, not, eq_list,
  map,
}
use frances.Text.{Text, codes}
use frances.Json.{
  Value, null, bool, string, array, object, Fields, end, field, get, get_value, as_str, as_texts,
}

pub record ToolFunction : Type 0 where
  pub name : Text
  pub description : Text
  pub parameters : Value

pub record ToolCallError : Type 0 where
  pub expected_schema : Value
  pub message : Text

pub record ToolCall : Type 0 where
  pub id : Text
  pub name : Text
  pub arguments : Value
  pub error : Option ToolCallError

-- The schema of the first tool of that name.
unfoldable pub schema_of : List ToolFunction → Text → Option Value
schema_of [] name = none
schema_of (tool ∷ tools) name =
    if eq_list tool.name name then some tool.parameters else schema_of tools name

-- `validator_for` is that of the crate `jsonschema`: none for a schema that it does not compile, else
-- a validator, which gives the message of an error.
module _ (validator_for : Value → Option (Value → Option Text)) where
  unfoldable pub validate : Value → Value → Option Text
  validate args schema = elim (validator_for schema) [
    | none ↦ none
    | some validator ↦ validator args
  ]

  unfoldable pub annotate_call : List ToolFunction → ToolCall → ToolCall
  unfolding validate schema_of
  annotate_call tools call = elim (schema_of tools call.name) [
    | none ↦ call
    | some schema ↦ elim (validate call.arguments schema) [
      | none ↦ call
      | some failure ↦ record call {
        error = some (record { expected_schema = schema; message = failure });
      }
    ]
  ]

  unfoldable pub annotate : List ToolCall → List ToolFunction → List ToolCall
  unfolding annotate_call
  annotate calls tools = map (annotate_call tools) calls

-- A value put in the place of that under a key.
unfoldable pub replace : Fields → Text → Value → Fields
replace end key w = end
replace (field k v fields) key w =
    let rest = replace fields key w in if eq_list k key then field k w fields else field k v rest

abbrev is_structured : Option Text → Bool
is_structured none = false
is_structured (some ty) = eq_list ty (codes "object") || eq_list ty (codes "array")

-- `parse` is `serde_json::from_str`.
module _ (parse : Text → Option Value) where
  abbrev repaired : Bool → Option Value → Option Value
  repaired structured (some (string raw)) = if structured then parse raw else none
  repaired structured slot = none

  unfoldable pub repair_slot : Text → Value → Fields → Fields
  unfolding get get_value replace
  repair_slot key prop_schema args =
      elim (repaired (is_structured (as_str (get_value prop_schema (codes "type"))))
        (get args key)) [ none ↦ args | some parsed ↦ replace args key parsed ]

  unfoldable pub repair_args : Fields → Fields → Fields
  unfolding repair_slot
  repair_args end args = args
  repair_args (field key prop_schema props) args =
      repair_args props (repair_slot key prop_schema args)

  abbrev repair_object : Option Value → ToolCall → Value → ToolCall
  repair_object (some (object props)) call (object args) = record call {
    arguments = object (repair_args props args);
  }
  repair_object props call arguments = call

  unfoldable pub repair_qwen_quirks : ToolCall → List ToolFunction → ToolCall
  unfolding schema_of repair_args get_value
  repair_qwen_quirks call tools = elim (schema_of tools call.name) [
    | none ↦ call
    | some schema ↦ repair_object (get_value schema (codes "properties")) call call.arguments
  ]

abbrev pub contains : List Text → Text → Bool
contains [] key = false
contains (t ∷ ts) key = eq_list t key || contains ts key

-- The type is `object`, or there are `properties`.
unfoldable pub is_object_schema : Fields → Text → Bool
unfolding get
is_object_schema map ty =
    eq_list ty (codes "object")
    || elim (get map (codes "properties")) [ none ↦ false | some v ↦ true ]

-- `additionalProperties: false`
abbrev pub is_false : Option Value → Bool
is_false (some (bool b)) = not b
is_false v = false

unfoldable pub is_closed : Fields → Bool
unfolding get
is_closed map = is_false (get map (codes "additionalProperties"))

unfoldable pub required_of : Fields → List Text
unfolding get
required_of map = as_texts (get map (codes "required"))

abbrev by_type : Fields → Option Text → Bool → Bool → Bool
by_type map none props items = false
by_type map (some ty) props items =
    if is_object_schema map ty
    then is_closed map && props
    else if eq_list ty (codes "array")
    then items
    else true

-- `is_strict_compatible`; what is under `properties` and under `items` is looked for and checked in
-- one recursion over the fields, which finds the first field of the key, as `get` does.
unfoldable mutual
  unfolding get is_object_schema is_closed required_of

  pub is_strict_compatible : Value → Bool
  is_strict_compatible (object map) =
      by_type map (as_str (get map (codes "type"))) (strict_properties (required_of map) map)
        (strict_items map)
  is_strict_compatible v = false

  pub strict_properties : List Text → Fields → Bool
  strict_properties required end = true
  strict_properties required (field k v map) =
      let here = strict_props required v in
      let rest = strict_properties required map in
      if eq_list k (codes "properties") then here else rest

  pub strict_props : List Text → Value → Bool
  strict_props required (object props) = strict_all required props
  strict_props required v = true

  pub strict_all : List Text → Fields → Bool
  strict_all required end = true
  strict_all required (field k sub props) =
      let here = is_strict_compatible sub in
      let rest = strict_all required props in contains required k && here && rest

  pub strict_items : Fields → Bool
  strict_items end = false
  strict_items (field k v map) =
      let here = is_strict_compatible v in
      let rest = strict_items map in if eq_list k (codes "items") then here else rest
