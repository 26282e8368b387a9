-- ===== src/BigQuery/Table.antt =====
-- dbcrossbarlib/src/drivers/bigquery_shared/table.rs: the schema of a BigQuery table, and the choice
-- of the table that dbcrossbarlib/src/drivers/bigquery/write_remote_data.rs loads first.
pub mod Names
pub mod Alignment
pub mod Import
use dbcrossbar.Base.{
  Bool, true, false, not, ◌||◌, Option, some, none, Text, List, [], ◌∷◌, Result, ok, err, ◌>>=◌,
  if◌then◌else◌, any,
}
use dbcrossbar.Schema.{Column, Table}
use dbcrossbar.BigQuery.ColumnName.{ColumnName, NameError, name_eq, try_from}
use dbcrossbar.BigQuery.Types.{Usage, csv_load, final_table}
use dbcrossbar.BigQuery.Convert.{Converted, ConvertError, can_import_from_csv}
use dbcrossbar.BigQuery.Column as ColumnOps
use dbcrossbar.BigQuery.Column.{BqColumn, ColumnError, name, for_column, to_column}

-- The table's name is a parameter of its operations, and is passed through.
pub data TableError : Type 0 where
  invalid_name : NameError → TableError
  duplicate_names : ColumnName → ColumnName → TableError
  not_converted : ConvertError → TableError
  missing_column : ColumnName → TableError
  not_aligned : ColumnError → TableError

abbrev pub lift_name : Result NameError ColumnName → Result TableError ColumnName
lift_name (ok n) = ok n
lift_name (err e) = err (invalid_name e)

-- `name`, made from a text of the portable schema.
abbrev pub table_name_for : Text → Result TableError ColumnName
table_name_for s = lift_name (try_from s)

abbrev pub lift_converted {ℓ} : {A : Type ℓ} → Result ConvertError A → Result TableError A
lift_converted (ok a) = ok a
lift_converted (err e) = err (not_converted e)

abbrev pub lift_column : Result ColumnError BqColumn → Result TableError BqColumn
lift_column (ok c) = ok c
lift_column (err e) = err (not_aligned e)

-- `col_names.get(&col_name)`, the name of the set that equals this one.
unfoldable pub get_name : ColumnName → List ColumnName → Option ColumnName
get_name n [] = none
get_name n (m ∷ seen) = if name_eq m n then some m else get_name n seen

-- `!col_names.insert(…)` and the error of that branch, or what comes after it.
abbrev pub unless_seen {ℓ} :
    {A : Type ℓ} → Option ColumnName → ColumnName → Result TableError A → Result TableError A
unless_seen (some prev) col_name after = err (duplicate_names prev col_name)
unless_seen none col_name after = after

-- The columns of `for_table_name_and_columns`, with the set of the names so far.
unfoldable pub for_columns :
    List ColumnName → List Column → Usage → Result TableError (List BqColumn)
unfolding get_name
for_columns col_names [] usage = ok []
for_columns col_names (c ∷ columns) usage = do
  col_name ← table_name_for c.name
  unless_seen (get_name col_name col_names) col_name (
      lift_converted (for_column col_name c usage) >>= λ col.
      for_columns (col_name ∷ col_names) columns usage >>= λ rest. ok (col ∷ rest))

unfoldable pub for_table_columns : List Column → Usage → Result TableError (List BqColumn)
unfolding for_columns
for_table_columns columns usage = for_columns [] columns usage

-- A `HashMap` collected from pairs keeps the last value of a key.
unfoldable pub column_map_get : List BqColumn → ColumnName → Option BqColumn
column_map_get [] n = none
column_map_get (c ∷ columns) n = elim (column_map_get columns n) [
  | some d ↦ some d
  | none ↦ if name_eq (name c) n then some c else none
]

-- The closure that is mapped over the columns of the other table.
abbrev pub align_found : Option BqColumn → BqColumn → Result TableError BqColumn
align_found (some col) c = lift_column (ColumnOps.aligned_with col c)
align_found none c = err (missing_column (name c))

unfoldable pub aligned_with : List BqColumn → List BqColumn → Result TableError (List BqColumn)
unfolding column_map_get
aligned_with self [] = ok []
aligned_with self (c ∷ other) = do
  col ← align_found (column_map_get self (name c)) c
  rest ← aligned_with self other
  ok (col ∷ rest)

unfoldable pub to_columns : List BqColumn → Converted (List Column)
unfolding to_column
to_columns [] = ok []
to_columns (c ∷ columns) = do col ← to_column c; rest ← to_columns columns; ok (col ∷ rest)

-- `bigquery_can_import_from_csv` of a table: the loop stops at the first column that says no.
unfoldable pub table_can_import_from_csv : List Column → Converted Bool
unfolding can_import_from_csv
table_can_import_from_csv [] = ok true
table_can_import_from_csv (col ∷ columns) =
    let rest = table_can_import_from_csv columns in
    (can_import_from_csv col.data_type >>= λ answer. if answer then rest else ok false)

-- `use_temp` of `write_remote_data_helper`, and how the initial table is to be used.
unfoldable pub use_temp : List Column → Bool → Converted Bool
unfolding table_can_import_from_csv
use_temp columns is_upsert = do
  can_import ← table_can_import_from_csv columns
  ok (not can_import || is_upsert)

abbrev pub initial_usage : Bool → Usage
initial_usage use_temp = if use_temp then csv_load else final_table
