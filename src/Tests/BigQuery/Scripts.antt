-- ===== src/Tests/BigQuery/Scripts.antt =====
-- The scripts that dbcrossbarlib/src/drivers/bigquery_shared/table.rs writes, at concrete tables.
use dbcrossbar.BigQuery.Export.{unknown_export}
use dbcrossbar.Base.{
  ℕ, ◌≡◌, refl, ◌&&◌, true, all, is_ok, none, some, List, [], ◌∷◌, codes, ok, Text, err,
}
use dbcrossbar.Schema.{DataType}
use dbcrossbar.IfExists.{append}
use dbcrossbar.BigQuery.ColumnName.{as_str}
use dbcrossbar.BigQuery.ColumnName.Validity.{of_text}
use dbcrossbar.BigQuery.Types.{
  BqNonArrayDataType, data_type, array, non_array, struct, field, nil, date, string, datetime,
  stringified,
}
use dbcrossbar.BigQuery.Column.{BqColumn, column, no_columns, nullable, repeated, bq_data_type}
use dbcrossbar.BigQuery.ImportUdf.{write_transform_expr}
use dbcrossbar.BigQuery.ImportUdf.Laws.{can_import}
use dbcrossbar.BigQuery.ExportUdf as ExportUdf
use dbcrossbar.BigQuery.Sql.{TableName, dotted_and_quoted}
use dbcrossbar.BigQuery.TableSql.{write_rows_sql, write_import_sql, write_count_sql}
use dbcrossbar.BigQuery.TableSql.Laws.{is_ok-write_import_sql}

abbrev place : BqNonArrayDataType
place = struct (
    field (some (of_text (codes "at"))) (non_array date)
      (field (some (of_text (codes "tags"))) (array string) nil))

imports_place :
    write_transform_expr (codes "json") (non_array place) 0
    ≡ ok (
        codes
          "(json) == null ? null : {\n  \"at\": new Date(json[\"at\"]),\n  \"tags\": (json[\"tags\"] == null) ? null : json[\"tags\"].map(function (e) {\n    return e;\n  })\n}")
unfolding write_transform_expr as_str
imports_place = refl

exports_place :
    ExportUdf.write_transform_expr (codes "value") (non_array place) 0
    ≡ ok (
        codes
          "(value) == null ? null : {\n  \"at\": value[\"at\"].toISOString().split('T')[0],\n  \"tags\": value[\"tags\"]\n}")
unfolding ExportUdf.write_transform_expr as_str
exports_place = refl

abbrev places : TableName
places = record { project = codes "p"; dataset = codes "d"; table = codes "places" }

abbrev temp : TableName
temp = record { project = codes "p"; dataset = codes "d"; table = codes "temp" }

abbrev digit : ℕ → Text
digit n = codes "0"

counts :
    write_count_sql places (some (codes "a > 1"))
    ≡ ok (codes "SELECT COUNT(*) AS `count` FROM `p`.`d`.`places` WHERE (a > 1)")
unfolding write_count_sql
counts = refl

abbrev times : List BqColumn
times =
    column none (of_text (codes "times")) (data_type datetime) repeated no_columns
    ∷ column none (of_text (codes "at")) (data_type date) nullable no_columns
    ∷ []

is_ok-write_import_sql_example :
    is_ok (write_import_sql digit places times temp append)
    ≡ all (λ c. can_import (bq_data_type c)) times
      && (is_ok (dotted_and_quoted places) && is_ok (write_rows_sql digit places times temp append))
is_ok-write_import_sql_example = is_ok-write_import_sql digit places times temp append

imports_times : is_ok (write_import_sql digit places times temp append) ≡ true
unfolding write_import_sql
imports_times = refl

abbrev moment : BqColumn
moment =
    column none (of_text (codes "m"))
      (data_type (
        struct (
          field (some (of_text (codes "a"))) (non_array (stringified DataType.json))
            (field (some (of_text (codes "b"))) (non_array datetime) nil))))
      nullable no_columns

-- The JSON asks for a function, and the function cannot transform the DATETIME beside it.
no_function : ExportUdf.write_export_udf digit moment 0 ≡ err unknown_export
unfolding ExportUdf.write_export_udf as_str
no_function = refl
