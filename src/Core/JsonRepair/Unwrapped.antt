-- ===== src/Core/JsonRepair/Unwrapped.antt =====
-- crates/frances-core/src/json_repair.rs: the recursion ends, and leaves no container in a string.
use frances.Prelude.{
  ℕ, zero, suc, ◌≤◌, ◌≡◌, refl, inl, inr, Option, none, some, Option-cases, arith,
}
use frances.Text.{Text}
use frances.Json.{
  Value, null, bool, number, string, array, object, Items, nil, item, Fields, end, field,
}
use frances.Json.Weight.{weight, weight_items, weight_fields, IsParser}
use frances.Core.JsonRepair.{as_container, each_item, each_field, unwrap_on, unwrap_stringified}

module _ (parse : Text → Option Value) where
  -- No string at any depth is the text of an array or an object.
  unfoldable mutual
    pub IsUnwrapped : Value → Type 0
    IsUnwrapped null = Unit {0}
    IsUnwrapped (bool b) = Unit {0}
    IsUnwrapped (number n) = Unit {0}
    IsUnwrapped (string s) = (as_container (parse s) ≡ none)
    IsUnwrapped (array items) = AreUnwrapped items
    IsUnwrapped (object fields) = AllUnwrapped fields

    pub AreUnwrapped : Items → Type 0
    AreUnwrapped nil = Unit {0}
    AreUnwrapped (item v items) = IsUnwrapped v × AreUnwrapped items

    pub AllUnwrapped : Fields → Type 0
    AllUnwrapped end = Unit {0}
    AllUnwrapped (field k v fields) = IsUnwrapped v × AllUnwrapped fields

  weight-pos : (v : Value) → 1 ≤ weight v
  unfolding weight
  weight-pos null = omega arith
  weight-pos (bool b) = omega arith
  weight-pos (number n) = omega arith
  weight-pos (string s) = omega arith
  weight-pos (array items) = omega arith
  weight-pos (object fields) = omega arith

  as_container-eq : (o : Option Value) (v : Value) → as_container o ≡ some v → o ≡ some v
  as_container-eq none v h = cc
  as_container-eq (some null) v h = cc
  as_container-eq (some (bool b)) v h = cc
  as_container-eq (some (number n)) v h = cc
  as_container-eq (some (string s)) v h = cc
  as_container-eq (some (array items)) v h = h
  as_container-eq (some (object fields)) v h = h

  Done : ℕ → Value → Type 0
  Done n v = (w : Value) × (unwrap_on parse n v ≡ some w) × IsUnwrapped w

  each_item-Done :
      (n : ℕ)
      → ((v : Value) → weight v ≤ n → Done n v)
      → (items : Items) → weight_items items ≤ n
      → (ws : Items) × (each_item (unwrap_on parse n) items ≡ some ws) × AreUnwrapped ws
  unfolding Done each_item weight IsUnwrapped
  each_item-Done n ih nil l = (nil, refl, tt)
  each_item-Done n ih (item v items) l =
      let (w, e, u) = ih v (omega (arith, l)) in
      let (ws, f, us) = each_item-Done n ih items (omega (arith, l)) in
      (item w ws, rw (each_item, e, f) refl, (u, us))

  each_field-Done :
      (n : ℕ)
      → ((v : Value) → weight v ≤ n → Done n v)
      → (fields : Fields) → weight_fields fields ≤ n
      → (ws : Fields) × (each_field (unwrap_on parse n) fields ≡ some ws) × AllUnwrapped ws
  unfolding Done each_field weight IsUnwrapped
  each_field-Done n ih end l = (end, refl, tt)
  each_field-Done n ih (field k v fields) l =
      let (w, e, u) = ih v (omega (arith, l)) in
      let (ws, f, us) = each_field-Done n ih fields (omega (arith, l)) in
      (field k w ws, rw (each_field, e, f) refl, (u, us))

  unwrap_on-Done : IsParser parse → (n : ℕ) (v : Value) → weight v ≤ n → Done n v
  unfolding Done unwrap_on weight IsUnwrapped
  unwrap_on-Done parser zero v l = absurd (omega (arith, l, weight-pos v))
  unwrap_on-Done parser (suc n) null l = (null, refl, tt)
  unwrap_on-Done parser (suc n) (bool b) l = (bool b, refl, tt)
  unwrap_on-Done parser (suc n) (number m) l = (number m, refl, tt)
  unwrap_on-Done parser (suc n) (string s) l = elim (Option-cases (as_container (parse s))) [
    | inl e ↦ (string s, rw (unwrap_on, e) refl, e)
    | inr (inner, e) ↦
        let shorter = parser.shorter s inner (as_container-eq (parse s) inner e) in
        let (w, f, u) = unwrap_on-Done parser n inner (omega (arith, l, shorter)) in
        (w, rw (unwrap_on, e) f, u)
  ]
  unwrap_on-Done parser (suc n) (array items) l =
      let (ws, e, us) = each_item-Done n (unwrap_on-Done parser n) items (omega (arith, l)) in
      (array ws, rw (unwrap_on, e) refl, us)
  unwrap_on-Done parser (suc n) (object fields) l =
      let (ws, e, us) = each_field-Done n (unwrap_on-Done parser n) fields (omega (arith, l)) in
      (object ws, rw (unwrap_on, e) refl, us)

  Fixed : ℕ → Value → Type 0
  Fixed n v = (unwrap_on parse n v ≡ some v)

  each_item-Fixed :
      (n : ℕ)
      → ((v : Value) → weight v ≤ n → IsUnwrapped v → Fixed n v)
      → (items : Items) → weight_items items ≤ n
      → AreUnwrapped items
      → each_item (unwrap_on parse n) items ≡ some items
  unfolding Fixed each_item weight IsUnwrapped
  each_item-Fixed n ih nil l us = refl
  each_item-Fixed n ih (item v items) l us =
      rw
        (
          each_item,
          ih v (omega (arith, l)) us.0,
          each_item-Fixed n ih items (omega (arith, l)) us.1,
        )
        refl

  each_field-Fixed :
      (n : ℕ)
      → ((v : Value) → weight v ≤ n → IsUnwrapped v → Fixed n v)
      → (fields : Fields) → weight_fields fields ≤ n
      → AllUnwrapped fields
      → each_field (unwrap_on parse n) fields ≡ some fields
  unfolding Fixed each_field weight IsUnwrapped
  each_field-Fixed n ih end l us = refl
  each_field-Fixed n ih (field k v fields) l us =
      rw
        (
          each_field,
          ih v (omega (arith, l)) us.0,
          each_field-Fixed n ih fields (omega (arith, l)) us.1,
        )
        refl

  unwrap_on-Fixed : (n : ℕ) (v : Value) → weight v ≤ n → IsUnwrapped v → Fixed n v
  unfolding Fixed unwrap_on weight IsUnwrapped
  unwrap_on-Fixed zero v l u = absurd (omega (arith, l, weight-pos v))
  unwrap_on-Fixed (suc n) null l u = refl
  unwrap_on-Fixed (suc n) (bool b) l u = refl
  unwrap_on-Fixed (suc n) (number m) l u = refl
  unwrap_on-Fixed (suc n) (string s) l u = rw (Fixed, unwrap_on, u) refl
  unwrap_on-Fixed (suc n) (array items) l u =
      rw (Fixed, unwrap_on, each_item-Fixed n (unwrap_on-Fixed n) items (omega (arith, l)) u) refl
  unwrap_on-Fixed (suc n) (object fields) l u =
      rw (Fixed, unwrap_on, each_field-Fixed n (unwrap_on-Fixed n) fields (omega (arith, l)) u) refl

  -- For a parser of JSON the recursion of `unwrap_stringified` ends. In the value that it returns no
  -- string, at any depth, is the text of an array or an object, and unwrapping it again changes
  -- nothing.
  pub unwrap_stringified-IsUnwrapped :
      IsParser parse
      → (v : Value)
      → (w : Value) × (unwrap_stringified parse v ≡ some w)
        × IsUnwrapped w
        × (unwrap_stringified parse w ≡ some w)
  unfolding Done Fixed unwrap_stringified
  unwrap_stringified-IsUnwrapped parser v =
      let (w, e, u) = unwrap_on-Done parser (weight v) v (omega arith) in
      (w, e, u, unwrap_on-Fixed (weight w) w (omega arith) u)
