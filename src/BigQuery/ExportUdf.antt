-- ===== src/BigQuery/ExportUdf.antt =====
-- dbcrossbarlib/src/drivers/bigquery_shared/export_udf.rs: the JavaScript functions that turn values of
-- BigQuery into JSON, with `write_export_udf` of column.rs. The decimal digits of a number are a
-- parameter.
pub mod Written
use dbcrossbar.Base.{
  ℕ, Bool, true, false, none, some, Text, [], ◌++◌, codes, Result, ok, err, ◌>>=◌, if◌then◌else◌,
}
use dbcrossbar.Schema.{DataType}
use dbcrossbar.BigQuery.ColumnName.{javascript_quoted}
use dbcrossbar.BigQuery.Types.{
  BqDataType, BqNonArrayDataType, BqFields, array, non_array, field, nil, bool, bytes, date,
  datetime, float64, geography, int64, numeric, string, stringified, struct, time, timestamp,
  display,
}
use dbcrossbar.BigQuery.Column.{BqColumn, bq_data_type}
use dbcrossbar.BigQuery.IndentLevel
use dbcrossbar.BigQuery.ImportUdf.{indented}
use dbcrossbar.BigQuery.Export.{
  NeedsCustomJsonExport, ExportError, never, only_inside_udf, always, in_sql_code,
  needs_custom_json_export, unexpected_stringified, unknown_export, unnamed_field,
}

unfoldable pub in_js_code : NeedsCustomJsonExport → Bool
in_js_code never = false
in_js_code only_inside_udf = true
in_js_code always = true

abbrev pub export_stringified : Text → DataType → Result ExportError Text
export_stringified input_expr DataType.uuid = ok input_expr
export_stringified input_expr (DataType.geo_json _) =
    ok (codes "JSON.parse(" ++ input_expr ++ codes ")")
export_stringified input_expr DataType.json = ok (codes "JSON.parse(" ++ input_expr ++ codes ")")
export_stringified input_expr nested = err (unexpected_stringified nested)

unfoldable mutual
  unfolding IndentLevel.display javascript_quoted needs_custom_json_export in_js_code

  pub write_transform_expr : Text → BqDataType → ℕ → Result ExportError Text
  write_transform_expr input_expr (array ty) indent =
      needs_custom_json_export (array ty) >>= λ needs.
      let written = write_non_array_transform_expr (codes "e") ty (IndentLevel.incr indent) in
      if in_js_code needs
      then (written >>= λ body. ok (
          codes "("
          ++ input_expr
          ++ codes ") == null ? null : "
          ++ input_expr
          ++ codes ".map(function (e) {"
          ++ indented (IndentLevel.incr indent)
          ++ codes "return "
          ++ body
          ++ codes ";"
          ++ indented indent
          ++ codes "})"))
      else ok input_expr
  write_transform_expr input_expr (non_array ty) indent =
      needs_custom_json_export (non_array ty) >>= λ needs.
      let written = write_non_array_transform_expr input_expr ty indent in
      if in_js_code needs then written else ok input_expr

  pub write_non_array_transform_expr : Text → BqNonArrayDataType → ℕ → Result ExportError Text
  write_non_array_transform_expr input_expr bool indent = ok input_expr
  write_non_array_transform_expr input_expr float64 indent = ok input_expr
  write_non_array_transform_expr input_expr int64 indent = ok input_expr
  write_non_array_transform_expr input_expr numeric indent = ok input_expr
  write_non_array_transform_expr input_expr string indent = ok input_expr
  write_non_array_transform_expr input_expr timestamp indent = ok input_expr
  write_non_array_transform_expr input_expr date indent =
      ok (input_expr ++ codes ".toISOString().split('T')[0]")
  write_non_array_transform_expr input_expr (stringified ty) indent =
      export_stringified input_expr ty
  write_non_array_transform_expr input_expr (struct fields) indent =
      write_fields input_expr true fields indent >>= λ written. ok (
        codes "("
        ++ input_expr
        ++ codes ") == null ? null : {"
        ++ written
        ++ indented indent
        ++ codes "}")
  write_non_array_transform_expr input_expr bytes indent = err unknown_export
  write_non_array_transform_expr input_expr datetime indent = err unknown_export
  write_non_array_transform_expr input_expr geography indent = err unknown_export
  write_non_array_transform_expr input_expr time indent = err unknown_export

  -- The loop over the fields, with its flag.
  pub write_fields : Text → Bool → BqFields → ℕ → Result ExportError Text
  write_fields input_expr first nil indent = ok []
  write_fields input_expr first (field none ty fields) indent = err unnamed_field
  write_fields input_expr first (field (some name) ty fields) indent =
      write_transform_expr (input_expr ++ codes "[" ++ javascript_quoted name ++ codes "]") ty
        (IndentLevel.incr indent)
      >>= λ value. write_fields input_expr false fields indent >>= λ rest. ok (
          (if first then [] else codes ",")
          ++ indented (IndentLevel.incr indent)
          ++ javascript_quoted name
          ++ codes ": "
          ++ value
          ++ rest)

-- What the function returns, from the expression for the value.
abbrev pub returned : BqDataType → Text → Text
returned (array _) expr =
    codes "const arr = "
    ++ expr
    ++ codes ";\nif (arr === []) { return \"\"; } else { return JSON.stringify(arr); }\n"
returned (non_array _) expr = codes "return JSON.stringify(" ++ expr ++ codes ");\n"

module _ (decimal : ℕ → Text) where
  unfoldable pub generate_export_udf : BqColumn → ℕ → Result ExportError Text
  unfolding write_transform_expr bq_data_type display
  generate_export_udf col idx =
      write_transform_expr (codes "value") (bq_data_type col) IndentLevel.none >>= λ expr. ok (
        codes "CREATE TEMP FUNCTION ExportJson_"
        ++ decimal idx
        ++ codes "(value "
        ++ display (bq_data_type col)
        ++ codes ")\nRETURNS STRING\nLANGUAGE js AS \"\"\"\n"
        ++ returned (bq_data_type col) expr
        ++ codes "\"\"\";\n\n")

  unfoldable pub write_export_udf : BqColumn → ℕ → Result ExportError Text
  unfolding generate_export_udf needs_custom_json_export in_sql_code bq_data_type
  write_export_udf self idx = needs_custom_json_export (bq_data_type self) >>= λ needs.
      if in_sql_code needs then generate_export_udf self idx else ok []
