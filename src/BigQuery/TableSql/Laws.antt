-- ===== src/BigQuery/TableSql/Laws.antt =====
-- dbcrossbarlib/src/drivers/bigquery_shared/table.rs: when the script that imports a table is written.
use dbcrossbar.Base.{
  ℕ, suc, ◌≡◌, refl, ◌∙◌, ap, Bool, ◌&&◌, Text, List, [], ◌∷◌, all, Result, ok, err, is_ok,
  is_ok->>=, is_ok-map,
}
use dbcrossbar.IfExists.{IfExists}
use dbcrossbar.BigQuery.Column.{BqColumn, bq_data_type}
use dbcrossbar.BigQuery.ImportUdf.{write_import_udf}
use dbcrossbar.BigQuery.ImportUdf.Laws.{can_import, is_ok-write_import_udf}
use dbcrossbar.BigQuery.Sql.{TableName, dotted_and_quoted, write_create_table_sql}
use dbcrossbar.BigQuery.TableSql.{
  ScriptError, import_udf, sql, from, create_table_type, write_each, write_rows_sql,
  write_import_sql,
}

is_ok-from :
    {E A : Type 0} (lift : E → ScriptError) (r : Result E A) → is_ok (from lift r) ≡ is_ok r
is_ok-from lift (ok a) = refl
is_ok-from lift (err e) = refl

is_ok-write_each :
    {E : Type 0} (write : BqColumn → ℕ → Result E Text) (p : BqColumn → Bool)
    → ((col : BqColumn) (idx : ℕ) → is_ok (write col idx) ≡ p col)
    → (idx : ℕ) (columns : List BqColumn) → is_ok (write_each write idx columns) ≡ all p columns
unfolding write_each
is_ok-write_each write p h idx [] = refl
is_ok-write_each write p h idx (col ∷ columns) =
    is_ok->>= (write col idx) _ (all p columns) (λ here.
      is_ok-map (write_each write (suc idx) columns) _
      ∙ is_ok-write_each write p h (suc idx) columns)
    ∙ ap (λ t. t && all p columns) (h col idx)

is_ok-write_create_table_sql :
    (decimal : ℕ → Text) (self_name : TableName) (columns : List BqColumn) (kind : Text)
    → is_ok (write_create_table_sql decimal self_name columns kind)
      ≡ is_ok (dotted_and_quoted self_name)
unfolding write_create_table_sql
is_ok-write_create_table_sql decimal self_name columns kind =
    is_ok-map (dotted_and_quoted self_name) _

-- The script is written if and only if each column can be imported, the table's name can be quoted, and
-- the statement that inserts or merges the rows can be written. A column can be imported if it is a
-- scalar, an array of `DATETIME`, or a type of which JavaScript has values.
pub is_ok-write_import_sql :
    (decimal : ℕ → Text) (self_name : TableName) (columns : List BqColumn)
    (source_table_name : TableName) (if_exists : IfExists)
    → is_ok (write_import_sql decimal self_name columns source_table_name if_exists)
      ≡ all (λ c. can_import (bq_data_type c)) columns
        && (is_ok (dotted_and_quoted self_name)
            && is_ok (write_rows_sql decimal self_name columns source_table_name if_exists))
unfolding write_import_sql
is_ok-write_import_sql decimal self_name columns source_table_name if_exists =
    let udfs = write_each (write_import_udf decimal) 0 columns in
    let create = write_create_table_sql decimal self_name columns (create_table_type if_exists) in
    let rows = write_rows_sql decimal self_name columns source_table_name if_exists in
    is_ok->>= (from import_udf udfs) _ (is_ok (dotted_and_quoted self_name) && is_ok rows)
      (λ written.
        is_ok->>= (from sql create) _ (is_ok rows)
          (λ made. is_ok-map (from sql rows) _ ∙ is_ok-from sql rows)
        ∙ ap (λ t. t && is_ok rows)
            (is_ok-from sql create
              ∙ is_ok-write_create_table_sql decimal self_name columns
                  (create_table_type if_exists)))
    ∙ ap (λ t. t && (is_ok (dotted_and_quoted self_name) && is_ok rows))
        (is_ok-from import_udf udfs
          ∙ is_ok-write_each (write_import_udf decimal) (λ c. can_import (bq_data_type c))
              (λ col idx. is_ok-write_import_udf decimal col idx) 0 columns)
