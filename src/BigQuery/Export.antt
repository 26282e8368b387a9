-- ===== src/BigQuery/Export.antt =====
-- How a column is exported: `needs_custom_json_export` of
-- dbcrossbarlib/src/drivers/bigquery_shared/export_udf.rs, and the writers of SELECT expressions of
-- column.rs. The decimal digits of a number are a parameter.
pub mod Laws
use dbcrossbar.Base.{ℕ, Bool, true, false, Text, ◌++◌, codes, Result, ok, err, ◌>>=◌, if◌then◌else◌}
use dbcrossbar.Schema.{DataType}
use dbcrossbar.BigQuery.ColumnName.{quoted}
use dbcrossbar.BigQuery.Types.{
  BqDataType, BqNonArrayDataType, BqFields, array, non_array, field, nil, bool, bytes, date,
  datetime, float64, geography, int64, numeric, string, stringified, struct, time, timestamp,
}
use dbcrossbar.BigQuery.JsonSafe.{is_json_safe_non_array}
use dbcrossbar.BigQuery.Column.{BqColumn, name, bq_data_type}

pub data NeedsCustomJsonExport : Type 0 where
  never only_inside_udf always : NeedsCustomJsonExport

pub data ExportError : Type 0 where
  unexpected_stringified : DataType → ExportError
  unknown_export unnamed_field cannot_output cannot_serialize : ExportError

unfoldable pub in_sql_code : NeedsCustomJsonExport → Bool
in_sql_code never = false
in_sql_code only_inside_udf = false
in_sql_code always = true

-- `max`, by the derived order.
abbrev pub max : NeedsCustomJsonExport → NeedsCustomJsonExport → NeedsCustomJsonExport
max never b = b
max only_inside_udf never = only_inside_udf
max only_inside_udf b = b
max always b = always

abbrev pub stringified_needs : DataType → Result ExportError NeedsCustomJsonExport
stringified_needs DataType.uuid = ok never
stringified_needs (DataType.geo_json _) = ok always
stringified_needs DataType.json = ok always
stringified_needs nested = err (unexpected_stringified nested)

unfoldable mutual
  pub needs_custom_json_export : BqDataType → Result ExportError NeedsCustomJsonExport
  needs_custom_json_export (array nested) = non_array_needs_custom_json_export nested
  needs_custom_json_export (non_array nested) = non_array_needs_custom_json_export nested

  pub non_array_needs_custom_json_export :
      BqNonArrayDataType → Result ExportError NeedsCustomJsonExport
  non_array_needs_custom_json_export bool = ok never
  non_array_needs_custom_json_export float64 = ok never
  non_array_needs_custom_json_export int64 = ok never
  non_array_needs_custom_json_export numeric = ok never
  non_array_needs_custom_json_export string = ok never
  non_array_needs_custom_json_export timestamp = ok never
  non_array_needs_custom_json_export date = ok only_inside_udf
  non_array_needs_custom_json_export (stringified nested) = stringified_needs nested
  non_array_needs_custom_json_export (struct fields) = fields_need never fields
  non_array_needs_custom_json_export datetime = ok only_inside_udf
  non_array_needs_custom_json_export geography = ok only_inside_udf
  non_array_needs_custom_json_export bytes = err unknown_export
  non_array_needs_custom_json_export time = err unknown_export

  -- The `try_fold` over the fields.
  pub fields_need : NeedsCustomJsonExport → BqFields → Result ExportError NeedsCustomJsonExport
  fields_need acc nil = ok acc
  fields_need acc (field name ty fields) =
      needs_custom_json_export ty >>= λ needs. fields_need (max acc needs) fields

-- What stands inside `TO_JSON_STRING` for an array of this type.
abbrev pub array_expr : BqNonArrayDataType → Text → Result ExportError Text
array_expr datetime name = ok (
    codes "(SELECT ARRAY_AGG(FORMAT_DATETIME(\"%Y-%m-%dT%H:%M:%E*S\", "
    ++ name
    ++ codes ")) FROM UNNEST("
    ++ name
    ++ codes ") AS "
    ++ name
    ++ codes ")")
array_expr geography name = ok (
    codes "(SELECT ARRAY_AGG(ST_ASGEOJSON("
    ++ name
    ++ codes ")) FROM UNNEST("
    ++ name
    ++ codes ") AS "
    ++ name
    ++ codes ")")
array_expr timestamp name = ok (
    codes "(SELECT ARRAY_AGG(FORMAT_TIMESTAMP(\"%Y-%m-%dT%H:%M:%E*SZ\", "
    ++ name
    ++ codes ", \"+0\")) FROM UNNEST("
    ++ name
    ++ codes ") AS "
    ++ name
    ++ codes ")")
array_expr bytes name = err cannot_output
array_expr time name = err cannot_output
array_expr _ name = ok name

unfoldable pub write_export_select_expr_for_array :
    Text → BqNonArrayDataType → Result ExportError Text
write_export_select_expr_for_array name data_type = do
  expr ← array_expr data_type name
  ok (codes "NULLIF(TO_JSON_STRING(" ++ expr ++ codes "), '[]') AS " ++ name)

unfoldable pub write_export_select_expr_for_non_array :
    Text → BqNonArrayDataType → Result ExportError Text
unfolding is_json_safe_non_array
write_export_select_expr_for_non_array name bool = ok (
    codes "(CASE "
    ++ name
    ++ codes " WHEN TRUE THEN \"t\" WHEN FALSE THEN \"f\" ELSE NULL END) AS "
    ++ name)
write_export_select_expr_for_non_array name datetime =
    ok (codes "FORMAT_DATETIME(\"%Y-%m-%dT%H:%M:%E*S\", " ++ name ++ codes ") AS " ++ name)
write_export_select_expr_for_non_array name geography =
    ok (codes "ST_ASGEOJSON(" ++ name ++ codes ") AS " ++ name)
write_export_select_expr_for_non_array name (struct fields) =
    if is_json_safe_non_array (struct fields)
    then ok (codes "TO_JSON_STRING(" ++ name ++ codes ") AS " ++ name)
    else err cannot_serialize
write_export_select_expr_for_non_array name timestamp =
    ok
      (codes "FORMAT_TIMESTAMP(\"%Y-%m-%dT%H:%M:%E*SZ\", " ++ name ++ codes ", \"+0\") AS " ++ name)
write_export_select_expr_for_non_array name bytes = err cannot_output
write_export_select_expr_for_non_array name time = err cannot_output
write_export_select_expr_for_non_array name _ = ok name

abbrev pub export_plain : Text → BqDataType → Result ExportError Text
export_plain name (array ty) = write_export_select_expr_for_array name ty
export_plain name (non_array ty) = write_export_select_expr_for_non_array name ty

abbrev pub custom_expr : (ℕ → Text) → Text → ℕ → Text
custom_expr decimal name idx =
    codes "ExportJson_" ++ decimal idx ++ codes "(" ++ name ++ codes ") AS " ++ name

unfoldable pub write_export_select_expr : (ℕ → Text) → BqColumn → ℕ → Result ExportError Text
unfolding needs_custom_json_export in_sql_code write_export_select_expr_for_array
    write_export_select_expr_for_non_array quoted bq_data_type
write_export_select_expr decimal self idx =
    needs_custom_json_export (bq_data_type self) >>= λ needs.
    if in_sql_code needs
    then ok (custom_expr decimal (quoted (name self)) idx)
    else export_plain (quoted (name self)) (bq_data_type self)
