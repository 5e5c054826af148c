-- ===== src/Core/JsonRepair/Tests.antt =====
-- An array that arrives in a string.
use frances.Prelude.{
  ◌≡◌, refl, ◌≤◌, Option, none, some, if◌then◌else◌, eq_list, eq_list→eq, length, ap, Bool-cases,
  inl, inr, arith,
}
use frances.Text.{Text, codes}
use frances.Json.{Value, string, array, object, nil, end, field}
use frances.Json.Weight.{weight, IsParser}
use frances.Core.JsonRepair.{unwrap_stringified}
use frances.Core.JsonRepair.Unwrapped.{IsUnwrapped, unwrap_stringified-IsUnwrapped}

-- A parser that reads the empty array only.
abbrev parse : Text → Option Value
parse s = if eq_list s (codes "[]") then some (array nil) else none

parse-shorter : (s : Text) (v : Value) → parse s ≡ some v → weight v ≤ length s
unfolding weight
parse-shorter s v h = elim (Bool-cases (eq_list s (codes "[]"))) [
  | inl e ↦
      let same : array nil ≡ v = cc (rw e at h) in
      omega (arith, ap weight same, ap length (eq_list→eq s (codes "[]") e))
  | inr e ↦ cc (rw e at h)
]

parse-IsParser : IsParser parse
parse-IsParser = record { shorter = parse-shorter }

abbrev call : Value
call = object (field (codes "files") (string (codes "[]")) end)

repaired : unwrap_stringified parse call ≡ some (object (field (codes "files") (array nil) end))
unfolding unwrap_stringified eq_list
repaired = refl

unwrap_stringified-IsUnwrapped_example :
    (w : Value) × (unwrap_stringified parse call ≡ some w)
    × IsUnwrapped parse w
    × (unwrap_stringified parse w ≡ some w)
unwrap_stringified-IsUnwrapped_example = unwrap_stringified-IsUnwrapped parse parse-IsParser call
