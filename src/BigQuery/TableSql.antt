-- ===== src/BigQuery/TableSql.antt =====
-- dbcrossbarlib/src/drivers/bigquery_shared/table.rs: the scripts that import a table, export it and
-- count its rows. The decimal digits of a number are a parameter.
pub mod Laws
use dbcrossbar.Base.{
  ℕ, suc, Option, none, some, Text, List, [], ◌∷◌, ◌++◌, codes, Result, ok, err, ◌>>=◌,
}
use dbcrossbar.IfExists.{IfExists, error, append, overwrite, upsert}
use dbcrossbar.BigQuery.Column.{BqColumn}
use dbcrossbar.BigQuery.ImportUdf.{ImportError, write_import_udf}
use dbcrossbar.BigQuery.Sql.{
  TableName, SqlError, join, dotted_and_quoted, write_create_table_sql, write_insert_sql,
}
use dbcrossbar.BigQuery.Sql.Merge.{write_merge_sql}
use dbcrossbar.BigQuery.Export.{ExportError, write_export_select_expr}
use dbcrossbar.BigQuery.ExportUdf.{write_export_udf}

pub data ScriptError : Type 0 where
  import_udf : ImportError → ScriptError
  export_udf : ExportError → ScriptError
  sql : SqlError → ScriptError

abbrev pub from : {E A : Type 0} → (E → ScriptError) → Result E A → Result ScriptError A
from lift (ok a) = ok a
from lift (err e) = err (lift e)

-- The `CreateTableType` of a script, as it is written.
abbrev pub create_table_type : IfExists → Text
create_table_type error = codes "CREATE TABLE"
create_table_type append = codes "CREATE TABLE IF NOT EXISTS"
create_table_type overwrite = codes "CREATE OR REPLACE TABLE"
create_table_type (upsert _) = codes "CREATE TABLE IF NOT EXISTS"

-- A loop over the columns with their numbers, which stops at the first error.
unfoldable pub write_each :
    {E : Type 0} → (BqColumn → ℕ → Result E Text) → ℕ → List BqColumn → Result E (List Text)
write_each write idx [] = ok []
write_each write idx (col ∷ columns) = do
  here ← write col idx
  rest ← write_each write (suc idx) columns
  ok (here ∷ rest)

abbrev pub where_sql : Option Text → Text
where_sql none = []
where_sql (some where_clause) = codes " WHERE (" ++ where_clause ++ codes ")"

module _ (decimal : ℕ → Text) where
  abbrev pub write_rows_sql :
      TableName → List BqColumn → TableName → IfExists → Result SqlError Text
  write_rows_sql self_name columns source_table_name (upsert merge_keys) =
      write_merge_sql decimal self_name columns source_table_name merge_keys
  write_rows_sql self_name columns source_table_name _ =
      write_insert_sql decimal self_name columns source_table_name

  unfoldable pub write_import_sql :
      TableName → List BqColumn → TableName → IfExists → Result ScriptError Text
  unfolding write_each write_import_udf write_create_table_sql write_insert_sql write_merge_sql
  write_import_sql self_name columns source_table_name if_exists = do
    udfs ← from import_udf (write_each (write_import_udf decimal) 0 columns)
    create ←
        from sql (write_create_table_sql decimal self_name columns (create_table_type if_exists))
    rows ← from sql (write_rows_sql self_name columns source_table_name if_exists)
    ok (join [] udfs ++ create ++ codes "\n" ++ rows)

  -- With the `where_clause` of the arguments.
  unfoldable pub write_export_sql :
      TableName → List BqColumn → Option Text → Result ScriptError Text
  unfolding write_each write_export_udf write_export_select_expr dotted_and_quoted
  write_export_sql self_name columns where_clause = do
    udfs ← from export_udf (write_each (write_export_udf decimal) 0 columns)
    exprs ← from export_udf (write_each (write_export_select_expr decimal) 0 columns)
    table ← from sql (dotted_and_quoted self_name)
    ok (
        join [] udfs
        ++ codes "SELECT "
        ++ join (codes ",") exprs
        ++ codes " FROM "
        ++ table
        ++ where_sql where_clause)

unfoldable pub write_count_sql : TableName → Option Text → Result ScriptError Text
unfolding dotted_and_quoted
write_count_sql self_name where_clause = do
  table ← from sql (dotted_and_quoted self_name)
  ok (codes "SELECT COUNT(*) AS `count` FROM " ++ table ++ where_sql where_clause)
