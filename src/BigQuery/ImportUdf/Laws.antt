-- ===== src/BigQuery/ImportUdf/Laws.antt =====
-- dbcrossbarlib/src/drivers/bigquery_shared/import_udf.rs and column.rs: which types have a function that
-- imports them.
use dbcrossbar.Base.{
  ℕ, ◌≡◌, refl, ◌∙◌, ap, Bool, true, false, ◌&&◌, none, some, Text, is_ok, is_ok->>=, is_ok-map,
}
use dbcrossbar.Schema.{DataType}
use dbcrossbar.BigQuery.Types.{
  BqDataType, BqNonArrayDataType, BqFields, array, non_array, field, nil, bool, bytes, date,
  datetime, float64, geography, int64, numeric, string, stringified, struct, time, timestamp,
}
use dbcrossbar.BigQuery.Column.{BqColumn, bq_data_type}
use dbcrossbar.BigQuery.ImportUdf.{
  import_stringified, write_transform_expr, write_non_array_transform_expr, write_fields,
  generate_import_udf, import_udf_for, write_import_udf,
}

-- The types that are kept as the text of a JSON value, or as a text.
abbrev is_text_of_json : DataType → Bool
is_text_of_json (DataType.geo_json _) = true
is_text_of_json DataType.json = true
is_text_of_json (DataType.struct _) = true
is_text_of_json DataType.uuid = true
is_text_of_json _ = false

-- JavaScript has a value for the type: no date and time without a zone, no bytes, no geography and no
-- time of day is in it, and all fields of structs have names.
unfoldable mutual
  pub has_js_value : BqDataType → Bool
  has_js_value (array ty) = non_array_has_js_value ty
  has_js_value (non_array ty) = non_array_has_js_value ty

  pub non_array_has_js_value : BqNonArrayDataType → Bool
  non_array_has_js_value datetime = false
  non_array_has_js_value bytes = false
  non_array_has_js_value geography = false
  non_array_has_js_value time = false
  non_array_has_js_value (stringified ty) = is_text_of_json ty
  non_array_has_js_value (struct fields) = fields_have_js_value fields
  non_array_has_js_value _ = true

  pub fields_have_js_value : BqFields → Bool
  fields_have_js_value nil = true
  fields_have_js_value (field none ty fields) = false
  fields_have_js_value (field (some name) ty fields) =
      has_js_value ty && fields_have_js_value fields

stringified_lem : (e : Text) (ty : DataType) → is_ok (import_stringified e ty) ≡ is_text_of_json ty
stringified_lem e (DataType.array _) = refl
stringified_lem e DataType.bool = refl
stringified_lem e DataType.date = refl
stringified_lem e DataType.decimal = refl
stringified_lem e DataType.float32 = refl
stringified_lem e DataType.float64 = refl
stringified_lem e (DataType.geo_json _) = refl
stringified_lem e DataType.int16 = refl
stringified_lem e DataType.int32 = refl
stringified_lem e DataType.int64 = refl
stringified_lem e DataType.json = refl
stringified_lem e (DataType.struct _) = refl
stringified_lem e DataType.text = refl
stringified_lem e DataType.timestamp_without_time_zone = refl
stringified_lem e DataType.timestamp_with_time_zone = refl
stringified_lem e DataType.uuid = refl

mutual
  unfolding write_transform_expr has_js_value

  is_ok-write_transform_expr :
      (e : Text) (ty : BqDataType) (indent : ℕ)
      → is_ok (write_transform_expr e ty indent) ≡ has_js_value ty
  is_ok-write_transform_expr e (array ty) indent =
      is_ok-map (write_non_array_transform_expr _ ty _) _ ∙ is_ok-non_array _ ty _
  is_ok-write_transform_expr e (non_array ty) indent = is_ok-non_array e ty indent

  is_ok-non_array :
      (e : Text) (ty : BqNonArrayDataType) (indent : ℕ)
      → is_ok (write_non_array_transform_expr e ty indent) ≡ non_array_has_js_value ty
  is_ok-non_array e bool indent = refl
  is_ok-non_array e bytes indent = refl
  is_ok-non_array e date indent = refl
  is_ok-non_array e datetime indent = refl
  is_ok-non_array e float64 indent = refl
  is_ok-non_array e geography indent = refl
  is_ok-non_array e int64 indent = refl
  is_ok-non_array e numeric indent = refl
  is_ok-non_array e string indent = refl
  is_ok-non_array e (stringified ty) indent = stringified_lem e ty
  is_ok-non_array e (struct fields) indent =
      is_ok-map (write_fields e true fields indent) _ ∙ is_ok-write_fields e true fields indent
  is_ok-non_array e time indent = refl
  is_ok-non_array e timestamp indent = refl

  is_ok-write_fields :
      (e : Text) (first : Bool) (fields : BqFields) (indent : ℕ)
      → is_ok (write_fields e first fields indent) ≡ fields_have_js_value fields
  is_ok-write_fields e first nil indent = refl
  is_ok-write_fields e first (field none ty fields) indent = refl
  is_ok-write_fields e first (field (some name) ty fields) indent =
      is_ok->>= (write_transform_expr _ ty _) _ (fields_have_js_value fields) (λ value.
        is_ok-map (write_fields e false fields indent) _ ∙ is_ok-write_fields e false fields indent)
      ∙ ap (λ t. t && fields_have_js_value fields) (is_ok-write_transform_expr _ ty _)

-- A scalar needs no function, and an array of `DATETIME` has one in SQL.
unfoldable pub can_import : BqDataType → Bool
unfolding has_js_value
can_import (array datetime) = true
can_import (array ty) = has_js_value (array ty)
can_import (non_array (struct fields)) = fields_have_js_value fields
can_import (non_array _) = true

by_udf :
    (decimal : ℕ → Text) (self : BqColumn) (idx : ℕ) (ty : BqDataType)
    → bq_data_type self ≡ ty
    → is_ok (generate_import_udf decimal self idx) ≡ has_js_value ty
unfolding generate_import_udf
by_udf decimal self idx ty e =
    is_ok-map (write_transform_expr _ (bq_data_type self) _) _
    ∙ is_ok-write_transform_expr _ (bq_data_type self) _
    ∙ ap has_js_value e

of_type :
    (decimal : ℕ → Text) (self : BqColumn) (idx : ℕ) (ty : BqDataType)
    → bq_data_type self ≡ ty
    → is_ok (import_udf_for decimal ty self idx) ≡ can_import ty
unfolding can_import
of_type decimal self idx (array bool) e = by_udf decimal self idx _ e
of_type decimal self idx (array bytes) e = by_udf decimal self idx _ e
of_type decimal self idx (array date) e = by_udf decimal self idx _ e
of_type decimal self idx (array datetime) e = refl
of_type decimal self idx (array float64) e = by_udf decimal self idx _ e
of_type decimal self idx (array geography) e = by_udf decimal self idx _ e
of_type decimal self idx (array int64) e = by_udf decimal self idx _ e
of_type decimal self idx (array numeric) e = by_udf decimal self idx _ e
of_type decimal self idx (array string) e = by_udf decimal self idx _ e
of_type decimal self idx (array (stringified ty)) e = by_udf decimal self idx _ e
of_type decimal self idx (array (struct fields)) e = by_udf decimal self idx _ e
of_type decimal self idx (array time) e = by_udf decimal self idx _ e
of_type decimal self idx (array timestamp) e = by_udf decimal self idx _ e
of_type decimal self idx (non_array bool) e = refl
of_type decimal self idx (non_array bytes) e = refl
of_type decimal self idx (non_array date) e = refl
of_type decimal self idx (non_array datetime) e = refl
of_type decimal self idx (non_array float64) e = refl
of_type decimal self idx (non_array geography) e = refl
of_type decimal self idx (non_array int64) e = refl
of_type decimal self idx (non_array numeric) e = refl
of_type decimal self idx (non_array string) e = refl
of_type decimal self idx (non_array (stringified ty)) e = refl
of_type decimal self idx (non_array (struct fields)) e = by_udf decimal self idx _ e
of_type decimal self idx (non_array time) e = refl
of_type decimal self idx (non_array timestamp) e = refl

pub is_ok-write_import_udf :
    (decimal : ℕ → Text) (self : BqColumn) (idx : ℕ)
    → is_ok (write_import_udf decimal self idx) ≡ can_import (bq_data_type self)
unfolding write_import_udf
is_ok-write_import_udf decimal self idx = of_type decimal self idx (bq_data_type self) refl
