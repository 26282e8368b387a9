-- ===== src/BigQuery/ExportUdf/Written.antt =====
-- What becomes of the JavaScript function of a type that has an answer to
-- `needs_custom_json_export`: it is written, or the type holds one that the function cannot
-- transform.
use dbcrossbar.Base.{
  ◌≡◌, refl, ◌⊎◌, inl, inr, ℕ, Bool, true, false, none, some, Text, [], Result, ok, err, ◌>>=◌,
  >>=-eq-ok, if◌then◌else◌,
}
use dbcrossbar.Schema.{DataType}
use dbcrossbar.BigQuery.IndentLevel
use dbcrossbar.BigQuery.Types.{
  BqDataType, BqNonArrayDataType, BqFields, array, non_array, struct, stringified, nil, field,
}
use dbcrossbar.BigQuery.JsonSafe.{is_json_safe, is_json_safe_non_array, are_json_safe, both_safe}
use dbcrossbar.BigQuery.Column.{BqColumn, bq_data_type}
use dbcrossbar.BigQuery.Export.{
  NeedsCustomJsonExport, ExportError, max, unknown_export, stringified_needs, in_sql_code,
  needs_custom_json_export, non_array_needs_custom_json_export, fields_need,
}
use dbcrossbar.BigQuery.ExportUdf.{
  export_stringified, in_js_code, write_transform_expr, write_non_array_transform_expr,
  write_fields, generate_export_udf, write_export_udf,
}

-- A DATETIME or a GEOGRAPHY stands somewhere in the type.
unfoldable mutual
  pub HoldsLocal : BqDataType → Type 0
  HoldsLocal (array ty) = IsLocal ty
  HoldsLocal (non_array ty) = IsLocal ty

  pub IsLocal : BqNonArrayDataType → Type 0
  IsLocal BqNonArrayDataType.datetime = Unit
  IsLocal BqNonArrayDataType.geography = Unit
  IsLocal (struct fields) = HoldLocal fields
  IsLocal _ = ⊥

  pub HoldLocal : BqFields → Type 0
  HoldLocal nil = ⊥
  HoldLocal (field name ty fields) = HoldsLocal ty ⊎ HoldLocal fields

-- The text is written, or there is no export of a type, and then for the reason.
abbrev pub WrittenOr : Type 0 → Result ExportError Text → Type 0
WrittenOr reason r = ((written : Text) × (r ≡ ok written)) ⊎ ((r ≡ err unknown_export) × reason)

module _ {P : Type 0} where
  around_WrittenOr :
      (r : Result ExportError Text) (around : Text → Text)
      → WrittenOr P r
      → WrittenOr P (r >>= λ body. ok (around body))
  around_WrittenOr r around (inl (body, e)) = inl (around body, rw e refl)
  around_WrittenOr r around (inr (e, reason)) = inr (rw e refl, reason)

  if_WrittenOr :
      (t : Bool) {r s : Result ExportError Text}
      → WrittenOr P r
      → WrittenOr P s
      → WrittenOr P (if t then r else s)
  if_WrittenOr true then_so else_so = then_so
  if_WrittenOr false then_so else_so = else_so

  both_WrittenOr :
      {Q : Type 0} (r s : Result ExportError Text) (join : Text → Text → Text)
      → WrittenOr P r
      → WrittenOr Q s
      → WrittenOr (P ⊎ Q) (r >>= λ value. s >>= λ rest. ok (join value rest))
  both_WrittenOr r s join (inl (value, e)) (inl (rest, f)) = inl (join value rest, rw (e, f) refl)
  both_WrittenOr r s join (inl (value, e)) (inr (f, reason)) = inr (rw (e, f) refl, inr reason)
  both_WrittenOr r s join (inr (e, reason)) more = inr (rw e refl, inl reason)

stringified_WrittenOr :
    (input : Text) (nested : DataType) {needs : NeedsCustomJsonExport}
    → stringified_needs nested ≡ ok needs
    → (written : Text) × (export_stringified input nested ≡ ok written)
stringified_WrittenOr input DataType.uuid h = (_, refl)
stringified_WrittenOr input (DataType.geo_json _) h = (_, refl)
stringified_WrittenOr input DataType.json h = (_, refl)
stringified_WrittenOr input _ h = cc

mutual
  unfolding write_transform_expr needs_custom_json_export is_json_safe HoldsLocal

  pub type_WrittenOr :
      (ty : BqDataType) {needs : NeedsCustomJsonExport}
      → needs_custom_json_export ty ≡ ok needs
      → is_json_safe ty ≡ true
      → (input : Text) (indent : ℕ)
      → WrittenOr (HoldsLocal ty) (write_transform_expr input ty indent)
  type_WrittenOr (array ty) {needs} answer safe input indent = rw answer (
      if_WrittenOr (in_js_code needs)
        (around_WrittenOr _ _ (non_array_WrittenOr ty answer safe _ (IndentLevel.incr indent)))
        (inl (input, refl)))
  type_WrittenOr (non_array ty) {needs} answer safe input indent = rw answer (
      if_WrittenOr (in_js_code needs) (non_array_WrittenOr ty answer safe input indent)
        (inl (input, refl)))

  non_array_WrittenOr :
      (ty : BqNonArrayDataType) {needs : NeedsCustomJsonExport}
      → non_array_needs_custom_json_export ty ≡ ok needs
      → is_json_safe_non_array ty ≡ true
      → (input : Text) (indent : ℕ)
      → WrittenOr (IsLocal ty) (write_non_array_transform_expr input ty indent)
  non_array_WrittenOr BqNonArrayDataType.bytes answer safe input indent = cc
  non_array_WrittenOr BqNonArrayDataType.time answer safe input indent = cc
  non_array_WrittenOr BqNonArrayDataType.datetime answer safe input indent = inr (refl, tt)
  non_array_WrittenOr BqNonArrayDataType.geography answer safe input indent = inr (refl, tt)
  non_array_WrittenOr (stringified nested) answer safe input indent =
      inl (stringified_WrittenOr input nested answer)
  non_array_WrittenOr (struct fs) answer safe input indent =
      around_WrittenOr _ _ (fields_WrittenOr fs _ answer safe input true indent)
  non_array_WrittenOr _ answer safe input indent = inl (_, refl)

  fields_WrittenOr :
      (fs : BqFields) (acc : NeedsCustomJsonExport) {needs : NeedsCustomJsonExport}
      → fields_need acc fs ≡ ok needs
      → are_json_safe fs ≡ true
      → (input : Text) (first : Bool) (indent : ℕ)
      → WrittenOr (HoldLocal fs) (write_fields input first fs indent)
  fields_WrittenOr nil acc answer safe input first indent = inl ([], refl)
  fields_WrittenOr (field none ty fs) acc answer safe input first indent = cc
  fields_WrittenOr (field (some n) ty fs) acc answer safe input first indent =
      let (here, p, more) = >>=-eq-ok (needs_custom_json_export ty) _ answer in
      let (is_safe, are_safe) = both_safe (is_json_safe ty) (are_json_safe fs) safe in
      both_WrittenOr _ _ _ (type_WrittenOr ty p is_safe _ (IndentLevel.incr indent))
        (fields_WrittenOr fs (max acc here) more are_safe input false indent)

-- The function that `write_export_udf` puts before the script, or nothing where none is called.
pub write_export_udf-WrittenOr :
    (decimal : ℕ → Text) (c : BqColumn) (idx : ℕ) {needs : NeedsCustomJsonExport}
    → needs_custom_json_export (bq_data_type c) ≡ ok needs
    → is_json_safe (bq_data_type c) ≡ true
    → WrittenOr (HoldsLocal (bq_data_type c)) (write_export_udf decimal c idx)
unfolding write_export_udf generate_export_udf
write_export_udf-WrittenOr decimal c idx {needs} answer safe = rw answer (
    if_WrittenOr (in_sql_code needs)
      (around_WrittenOr _ _ (type_WrittenOr (bq_data_type c) answer safe _ IndentLevel.none))
      (inl ([], refl)))
