-- ===== src/Models/ToolArgs/Shape.antt =====
-- crates/frances-models-llm/src/tool_args.rs: for which schemas strict mode is asked.
use frances.Prelude.{
  ◌≡◌, ◌≢◌, refl, ap, inl, inr, List, Option, none, some, Bool, true, false, ◌&&◌, eq_list,
  Bool-cases,
}
use frances.Text.{Text, codes}
use frances.Json.{
  Value, null, bool, number, string, array, object, Fields, end, field, get, as_str, as_texts,
}
use frances.Models.ToolArgs.{
  contains, is_object_schema, is_closed, is_false, required_of, is_strict_compatible,
  strict_properties, strict_props, strict_all, strict_items,
}

-- A schema by its kind: one with no type, one of a type that is neither object nor array, an array
-- with no items given or with their schema, an object with no properties given or with each of them,
-- which may forbid further ones, and has a list of those required.
mutual
  pub data Shape : Type 0 where
    untyped : Shape
    scalar : Shape
    plain_array : Shape
    array_of : Shape → Shape
    plain_object : Bool → Shape
    object_of : Bool → List Text → Props → Shape

  pub data Props : Type 0 where
    no_props : Props
    prop : Text → Shape → Props → Props

-- Every object forbids further properties and requires its own, every array has items, and all have
-- a type.
unfoldable mutual
  pub is_locked : Shape → Bool
  is_locked untyped = false
  is_locked scalar = true
  is_locked plain_array = false
  is_locked (array_of sub) = is_locked sub
  is_locked (plain_object closed) = closed
  is_locked (object_of closed required props) = closed && are_locked required props

  pub are_locked : List Text → Props → Bool
  are_locked required no_props = true
  are_locked required (prop key sub props) =
      contains required key && is_locked sub && are_locked required props

abbrev pub IsClosing : Bool → Fields → Type 0
IsClosing true map = get map (codes "additionalProperties") ≡ some (bool false)
IsClosing false map = get map (codes "additionalProperties") ≢ some (bool false)

abbrev pub HasType : Text → Fields → Type 0
HasType ty map = as_str (get map (codes "type")) ≡ some ty

-- The fields of a schema of that shape, in any order and with any others.
unfoldable mutual
  pub IsSchema : Shape → Fields → Type 0
  IsSchema untyped map = as_str (get map (codes "type")) ≡ none
  IsSchema scalar map =
      (ty : Text) × HasType ty map
      × (eq_list ty (codes "object") ≡ false)
      × (eq_list ty (codes "array") ≡ false)
      × (get map (codes "properties") ≡ none)
  IsSchema plain_array map =
      HasType (codes "array") map
      × (get map (codes "properties") ≡ none)
      × (get map (codes "items") ≡ none)
  IsSchema (array_of sub) map =
      HasType (codes "array") map
      × (get map (codes "properties") ≡ none)
      × ((items : Fields) × (get map (codes "items") ≡ some (object items)) × IsSchema sub items)
  IsSchema (plain_object closed) map =
      HasType (codes "object") map × IsClosing closed map × (get map (codes "properties") ≡ none)
  IsSchema (object_of closed required props) map =
      HasType (codes "object") map
      × IsClosing closed map
      × (as_texts (get map (codes "required")) ≡ required)
      × ((fields : Fields) × (get map (codes "properties") ≡ some (object fields))
          × AreSchemas props fields)

  pub AreSchemas : Props → Fields → Type 0
  AreSchemas no_props end = Unit {0}
  AreSchemas (prop key sub props) (field k v fields) =
      (k ≡ key) × ((map : Fields) × (v ≡ object map) × IsSchema sub map) × AreSchemas props fields
  AreSchemas props fields = ⊥

is_false-eq : (v : Option Value) → is_false v ≡ true → v ≡ some (bool false)
is_false-eq none h = cc
is_false-eq (some (bool true)) h = cc
is_false-eq (some (bool false)) h = refl
is_false-eq (some null) h = cc
is_false-eq (some (number n)) h = cc
is_false-eq (some (string s)) h = cc
is_false-eq (some (array items)) h = cc
is_false-eq (some (object fields)) h = cc

IsClosing-is_closed : (closed : Bool) (map : Fields) → IsClosing closed map → is_closed map ≡ closed
unfolding is_closed
IsClosing-is_closed true map h = ap is_false h
IsClosing-is_closed false map h =
    elim (Bool-cases (is_false (get map (codes "additionalProperties")))) [
      | inl e ↦ absurd (h (is_false-eq (get map (codes "additionalProperties")) e))
      | inr e ↦ e
    ]

strict_properties-some :
    (required : List Text) (map : Fields) (v : Value)
    → get map (codes "properties") ≡ some v
    → strict_properties required map ≡ strict_props required v
unfolding is_strict_compatible get
strict_properties-some required end v g = cc
strict_properties-some required (field k w map) v g =
    elim (Bool-cases (eq_list k (codes "properties"))) [
      | inl e ↦ let same : w ≡ v = cc (rw e at g) in rw e (ap (strict_props required) same)
      | inr e ↦ rw e (strict_properties-some required map v (rw e at g))
    ]

strict_properties-none :
    (required : List Text) (map : Fields)
    → get map (codes "properties") ≡ none
    → strict_properties required map ≡ true
unfolding is_strict_compatible get
strict_properties-none required end g = refl
strict_properties-none required (field k w map) g =
    elim (Bool-cases (eq_list k (codes "properties"))) [
      | inl e ↦ cc (rw e at g)
      | inr e ↦ rw e (strict_properties-none required map (rw e at g))
    ]

strict_items-some :
    (map : Fields) (v : Value)
    → get map (codes "items") ≡ some v
    → strict_items map ≡ is_strict_compatible v
unfolding is_strict_compatible get
strict_items-some end v g = cc
strict_items-some (field k w map) v g = elim (Bool-cases (eq_list k (codes "items"))) [
  | inl e ↦ let same : w ≡ v = cc (rw e at g) in rw e (ap is_strict_compatible same)
  | inr e ↦ rw e (strict_items-some map v (rw e at g))
]

strict_items-none : (map : Fields) → get map (codes "items") ≡ none → strict_items map ≡ false
unfolding is_strict_compatible get
strict_items-none end g = refl
strict_items-none (field k w map) g = elim (Bool-cases (eq_list k (codes "items"))) [
  | inl e ↦ cc (rw e at g)
  | inr e ↦ rw e (strict_items-none map (rw e at g))
]

and-true : (b : Bool) → b && true ≡ b
and-true true = refl
and-true false = refl

mutual
  unfolding is_strict_compatible is_object_schema required_of is_locked IsSchema get eq_list

  strict-IsSchema :
      (shape : Shape) (map : Fields)
      → IsSchema shape map
      → is_strict_compatible (object map) ≡ is_locked shape
  strict-IsSchema untyped map h = rw h refl
  strict-IsSchema scalar map (ty, t, o, a, p) = rw (t, o, p, a) refl
  strict-IsSchema plain_array map (t, p, i) = rw (t, p, strict_items-none map i) refl
  strict-IsSchema (array_of sub) map (t, p, (items, i, h)) =
      rw (t, p, strict_items-some map (object items) i) (strict-IsSchema sub items h)
  strict-IsSchema (plain_object closed) map (t, c, p) =
      rw (t, IsClosing-is_closed closed map c, strict_properties-none (required_of map) map p)
        (and-true closed)
  strict-IsSchema (object_of closed required props) map (t, c, r, (fields, p, h)) =
      rw
        (
          t,
          IsClosing-is_closed closed map c,
          strict_properties-some (required_of map) map (object fields) p,
        )
        (rw r (ap (λ b. closed && b) (strict_all-AreSchemas required props fields h)))

  strict_all-AreSchemas :
      (required : List Text) (props : Props) (fields : Fields)
      → AreSchemas props fields
      → strict_all required fields ≡ are_locked required props
  strict_all-AreSchemas required no_props end h = refl
  strict_all-AreSchemas required no_props (field k v fields) h = absurd h
  strict_all-AreSchemas required (prop key sub props) end h = absurd h
  strict_all-AreSchemas required (prop key sub props) (field k v fields) (e, (map, o, s), h) =
      rw (e, o, strict-IsSchema sub map s, strict_all-AreSchemas required props fields h) refl

-- A schema of a shape, given by its keywords `type`, `properties`, `required`, `additionalProperties`
-- and `items` in any order and with any other keywords, is strict compatible exactly when the shape is
-- locked: every object in it forbids further properties and requires each of its own, every array has
-- items, and nothing is without a type. What is under other keywords, such as `anyOf`, or under the `items`
-- of an object is no part of the shape and does not matter.
pub is_strict_compatible-IsSchema :
    (shape : Shape) (map : Fields)
    → IsSchema shape map
    → is_strict_compatible (object map) ≡ is_locked shape
is_strict_compatible-IsSchema shape map h = strict-IsSchema shape map h
