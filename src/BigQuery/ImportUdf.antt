-- ===== src/BigQuery/ImportUdf.antt =====
-- dbcrossbarlib/src/drivers/bigquery_shared/import_udf.rs: the JavaScript functions that turn JSON into
-- values of BigQuery, with `write_import_udf` of column.rs. The decimal digits of a number are a
-- parameter.
pub mod Laws
use dbcrossbar.Base.{
  ℕ, Bool, true, false, none, some, Text, [], ◌++◌, codes, Result, ok, err, ◌>>=◌, if◌then◌else◌,
}
use dbcrossbar.Schema.{DataType}
use dbcrossbar.BigQuery.ColumnName.{javascript_quoted}
use dbcrossbar.BigQuery.Types.{
  BqDataType, BqNonArrayDataType, BqFields, array, non_array, field, nil, bool, bytes, date,
  datetime, float64, geography, int64, numeric, string, stringified, struct, time, timestamp,
  display, display_non_array,
}
use dbcrossbar.BigQuery.Column.{BqColumn, bq_data_type}
use dbcrossbar.BigQuery.IndentLevel

pub data ImportError : Type 0 where
  unexpected_stringified : DataType → ImportError
  unnamed_field cannot_import : ImportError

abbrev pub import_stringified : Text → DataType → Result ImportError Text
import_stringified input_expr (DataType.geo_json _) =
    ok (codes "JSON.stringify(" ++ input_expr ++ codes ")")
import_stringified input_expr DataType.json =
    ok (codes "JSON.stringify(" ++ input_expr ++ codes ")")
import_stringified input_expr (DataType.struct _) =
    ok (codes "JSON.stringify(" ++ input_expr ++ codes ")")
import_stringified input_expr DataType.uuid = ok input_expr
import_stringified input_expr ty = err (unexpected_stringified ty)

abbrev pub indented : ℕ → Text
indented indent = codes "\n" ++ IndentLevel.display indent

unfoldable mutual
  unfolding IndentLevel.display javascript_quoted

  pub write_transform_expr : Text → BqDataType → ℕ → Result ImportError Text
  write_transform_expr input_expr (array ty) indent =
      write_non_array_transform_expr (codes "e") ty (IndentLevel.incr indent) >>= λ body. ok (
        codes "("
        ++ input_expr
        ++ codes " == null) ? null : "
        ++ input_expr
        ++ codes ".map(function (e) {"
        ++ indented (IndentLevel.incr indent)
        ++ codes "return "
        ++ body
        ++ codes ";"
        ++ indented indent
        ++ codes "})")
  write_transform_expr input_expr (non_array ty) indent =
      write_non_array_transform_expr input_expr ty indent

  pub write_non_array_transform_expr : Text → BqNonArrayDataType → ℕ → Result ImportError Text
  write_non_array_transform_expr input_expr bool indent = ok input_expr
  write_non_array_transform_expr input_expr float64 indent = ok input_expr
  write_non_array_transform_expr input_expr int64 indent = ok input_expr
  write_non_array_transform_expr input_expr numeric indent = ok input_expr
  write_non_array_transform_expr input_expr string indent = ok input_expr
  write_non_array_transform_expr input_expr date indent =
      ok (codes "new Date(" ++ input_expr ++ codes ")")
  write_non_array_transform_expr input_expr timestamp indent =
      ok (codes "new Date(" ++ input_expr ++ codes ")")
  write_non_array_transform_expr input_expr (stringified ty) indent =
      import_stringified input_expr ty
  write_non_array_transform_expr input_expr (struct fields) indent =
      write_fields input_expr true fields indent >>= λ written. ok (
        codes "("
        ++ input_expr
        ++ codes ") == null ? null : {"
        ++ written
        ++ indented indent
        ++ codes "}")
  write_non_array_transform_expr input_expr datetime indent = err cannot_import
  write_non_array_transform_expr input_expr bytes indent = err cannot_import
  write_non_array_transform_expr input_expr geography indent = err cannot_import
  write_non_array_transform_expr input_expr time indent = err cannot_import

  -- The loop over the fields, with its flag.
  pub write_fields : Text → Bool → BqFields → ℕ → Result ImportError Text
  write_fields input_expr first nil indent = ok []
  write_fields input_expr first (field none ty fields) indent = err unnamed_field
  write_fields input_expr first (field (some name) ty fields) indent =
      write_transform_expr (input_expr ++ codes "[" ++ javascript_quoted name ++ codes "]") ty
        (IndentLevel.incr indent)
      >>= λ value. write_fields input_expr false fields indent >>= λ rest. ok (
          (if first then [] else codes ",")
          ++ indented (IndentLevel.incr indent)
          ++ javascript_quoted name
          ++ codes ": "
          ++ value
          ++ rest)

module _ (decimal : ℕ → Text) where
  unfoldable pub generate_import_udf : BqColumn → ℕ → Result ImportError Text
  unfolding write_transform_expr bq_data_type display
  generate_import_udf col idx =
      write_transform_expr (codes "json") (bq_data_type col) IndentLevel.none >>= λ expr. ok (
        codes "CREATE TEMP FUNCTION ImportJson_"
        ++ decimal idx
        ++ codes "(json_string STRING)\nRETURNS "
        ++ display (bq_data_type col)
        ++ codes "\nLANGUAGE js AS \"\"\"\nconst json = JSON.parse(json_string);\nreturn "
        ++ expr
        ++ codes ";\n\"\"\";\n\n")

  -- The functions for an array of `DATETIME`, which JavaScript cannot return.
  abbrev pub datetime_udf : ℕ → Text
  datetime_udf idx =
      codes "CREATE TEMP FUNCTION ImportJsonHelper_"
      ++ decimal idx
      ++ codes
          "(input STRING)\nRETURNS ARRAY<STRING>\nLANGUAGE js AS \"\"\"\nreturn JSON.parse(input);\n\"\"\";\n\nCREATE TEMP FUNCTION ImportJson_"
      ++ decimal idx
      ++ codes "(input STRING)\nRETURNS ARRAY<"
      ++ display_non_array datetime
      ++ codes
          ">\nAS ((\n    SELECT ARRAY_AGG(\n        COALESCE(\n            SAFE.PARSE_DATETIME('%Y-%m-%d %H:%M:%E*S', e),\n            PARSE_DATETIME('%Y-%m-%dT%H:%M:%E*S', e)\n        )\n    )\n    FROM UNNEST(ImportJsonHelper_"
      ++ decimal idx
      ++ codes "(input)) AS e\n));\n\n"

  abbrev pub import_udf_for : BqDataType → BqColumn → ℕ → Result ImportError Text
  import_udf_for (array datetime) self idx = ok (datetime_udf idx)
  import_udf_for (array _) self idx = generate_import_udf self idx
  import_udf_for (non_array (struct _)) self idx = generate_import_udf self idx
  import_udf_for (non_array _) self idx = ok []

  unfoldable pub write_import_udf : BqColumn → ℕ → Result ImportError Text
  unfolding generate_import_udf bq_data_type
  write_import_udf self idx = import_udf_for (bq_data_type self) self idx
