-- ===== src/Models/ToolArgs/Tests.antt =====
-- A schema for OpenAI's strict mode.
use frances.Prelude.{◌≡◌, refl, [], ◌∷◌, eq_list, true, false}
use frances.Text.{codes}
use frances.Json.{bool, string, array, object, nil, item, Fields, end, field}
use frances.Models.ToolArgs.{is_strict_compatible}
use frances.Json.{get}
use frances.Models.ToolArgs.Shape.{
  plain_object, object_of, no_props, prop, is_locked, IsSchema, is_strict_compatible-IsSchema,
}

abbrev inner : Fields
inner =
    field (codes "type") (string (codes "object"))
      (field (codes "additionalProperties") (bool false) end)

abbrev outer : Fields
outer = field (codes "type") (string (codes "object")) (
    field (codes "additionalProperties") (bool false) (
      field (codes "required") (array (item (string (codes "a")) nil))
        (field (codes "properties") (object (field (codes "a") (object inner) end)) end)))

is_strict : is_strict_compatible (object outer) ≡ true
unfolding is_strict_compatible eq_list
is_strict = refl

is_strict_compatible-IsSchema_example :
    is_strict_compatible (object outer)
    ≡ is_locked (object_of true (codes "a" ∷ []) (prop (codes "a") (plain_object true) no_props))
unfolding IsSchema get eq_list
is_strict_compatible-IsSchema_example =
    is_strict_compatible-IsSchema
      (object_of true (codes "a" ∷ []) (prop (codes "a") (plain_object true) no_props)) outer
      (
        refl,
        refl,
        refl,
        (field (codes "a") (object inner) end, refl, (refl, (inner, refl, (refl, refl, refl)), tt)),
      )

-- Nothing is asked of what is under `items` of an object, or under `anyOf`.
abbrev unlocked : Fields
unlocked = field (codes "type") (string (codes "object")) end

beside : is_strict_compatible (object (field (codes "items") (object unlocked) inner)) ≡ true
unfolding is_strict_compatible eq_list
beside = refl

any_of :
    is_strict_compatible (object (field (codes "anyOf") (array (item (object unlocked) nil)) inner))
    ≡ true
unfolding is_strict_compatible eq_list
any_of = refl
