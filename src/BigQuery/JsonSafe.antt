-- ===== src/BigQuery/JsonSafe.antt =====
-- dbcrossbarlib/src/drivers/bigquery_shared/data_type/mod.rs: `is_json_safe`, by which a struct may
-- be exported through `TO_JSON_STRING`.
use dbcrossbar.Base.{
  ◌≡◌, refl, ◌↔◌, Bool, true, false, not, ◌||◌, none, some, List, [], any, if◌then◌else◌,
}
use dbcrossbar.BigQuery.ColumnName.{ColumnName, name_eq}
use dbcrossbar.BigQuery.Types.{
  BqDataType, BqNonArrayDataType, BqFields, array, non_array, struct, nil, field,
}

-- `!names.insert(name)`: the name is in the set already.
abbrev seen : ColumnName → List ColumnName → Bool
seen name names = any (name_eq name) names

-- The set of names is made anew in each round of the loop, as in the source.
unfoldable mutual
  pub is_json_safe : BqDataType → Bool
  is_json_safe (array ty) = is_json_safe_non_array ty
  is_json_safe (non_array ty) = is_json_safe_non_array ty

  pub is_json_safe_non_array : BqNonArrayDataType → Bool
  is_json_safe_non_array (struct fields) = are_json_safe fields
  is_json_safe_non_array _ = true

  pub are_json_safe : BqFields → Bool
  are_json_safe nil = true
  are_json_safe (field none ty fields) = false
  are_json_safe (field (some name) ty fields) =
      let rest = are_json_safe fields in
      if seen name [] || not (is_json_safe ty) then false else rest

-- Every field of every struct in the type has a name.
unfoldable mutual
  pub IsNamed : BqDataType → Type 0
  IsNamed (array ty) = IsNamedNonArray ty
  IsNamed (non_array ty) = IsNamedNonArray ty

  pub IsNamedNonArray : BqNonArrayDataType → Type 0
  IsNamedNonArray (struct fields) = AreNamed fields
  IsNamedNonArray _ = Unit

  pub AreNamed : BqFields → Type 0
  AreNamed nil = Unit
  AreNamed (field none ty fields) = ⊥
  AreNamed (field (some name) ty fields) = IsNamed ty × AreNamed fields

-- One round of the loop, with its test.
pub both_safe : (a b : Bool) → (if not a then false else b) ≡ true → (a ≡ true) × (b ≡ true)
both_safe true b h = (refl, h)
both_safe false b h = cc

mutual
  unfolding is_json_safe IsNamed

  to_IsNamed : (ty : BqDataType) → is_json_safe ty ≡ true → IsNamed ty
  to_IsNamed (array ty) h = non_array_to_IsNamed ty h
  to_IsNamed (non_array ty) h = non_array_to_IsNamed ty h

  non_array_to_IsNamed :
      (ty : BqNonArrayDataType) → is_json_safe_non_array ty ≡ true → IsNamedNonArray ty
  non_array_to_IsNamed (struct fields) h = to_AreNamed fields h
  non_array_to_IsNamed _ h = tt

  to_AreNamed : (fs : BqFields) → are_json_safe fs ≡ true → AreNamed fs
  to_AreNamed nil h = tt
  to_AreNamed (field none ty fs) h = cc
  to_AreNamed (field (some n) ty fs) h =
      let (here, later) = both_safe (is_json_safe ty) (are_json_safe fs) h in
      (to_IsNamed ty here, to_AreNamed fs later)

mutual
  unfolding is_json_safe IsNamed

  of_IsNamed : (ty : BqDataType) → IsNamed ty → is_json_safe ty ≡ true
  of_IsNamed (array ty) h = non_array_of_IsNamed ty h
  of_IsNamed (non_array ty) h = non_array_of_IsNamed ty h

  non_array_of_IsNamed :
      (ty : BqNonArrayDataType) → IsNamedNonArray ty → is_json_safe_non_array ty ≡ true
  non_array_of_IsNamed (struct fields) h = of_AreNamed fields h
  non_array_of_IsNamed BqNonArrayDataType.bool h = refl
  non_array_of_IsNamed _ h = refl

  of_AreNamed : (fs : BqFields) → AreNamed fs → are_json_safe fs ≡ true
  of_AreNamed nil h = refl
  of_AreNamed (field none ty fs) h = absurd h
  of_AreNamed (field (some n) ty fs) h = rw (of_IsNamed ty h.0, of_AreNamed fs h.1)

-- A type passes for safe exactly when every field of every struct in it has a name, at any depth:
-- that two fields have one name is never noticed.
pub is_json_safe_iff : (ty : BqDataType) → (is_json_safe ty ≡ true) ↔ IsNamed ty
is_json_safe_iff ty = (to_IsNamed ty, of_IsNamed ty)
