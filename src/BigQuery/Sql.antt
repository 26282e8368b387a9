-- ===== src/BigQuery/Sql.antt =====
-- The SQL that dbcrossbarlib/src/drivers/bigquery_shared/table.rs and column.rs write to create a
-- table and to import data into it, with the names of table_name.rs. The decimal digits of a number
-- are a parameter: they are the formatter's.
pub mod Merge
use dbcrossbar.Base.{
  ℕ, suc, ◌==◌, Bool, true, false, not, Option, none, some, Text, List, [], ◌∷◌, ◌++◌, any, map,
  codes, Result, ok, err, ◌>>=◌, if◌then◌else◌,
}
use dbcrossbar.BigQuery.ColumnName.{ColumnName, NameError, try_from, name_eq, quoted}
use dbcrossbar.BigQuery.Types.{BqDataType, BqNonArrayDataType, array, non_array, struct, display}
use dbcrossbar.BigQuery.Column.{BqColumn, name, bq_data_type, is_not_null, can_be_merged_on}
use dbcrossbar.BigQuery.Table.{column_map_get}

pub record TableName : Type 0 where
  pub project : Text
  pub dataset : Text
  pub table : Text

pub data SqlError : Type 0 where
  unquotable : Text → SqlError
  invalid_key : NameError → SqlError
  missing_key : Text → SqlError
  nullable_key : ColumnName → SqlError

abbrev backquote : ℕ
backquote = b'`'

-- The `Display` of `Ident`.
unfoldable pub display_ident : Text → Result SqlError Text
display_ident s =
    if any (λ c. c == backquote) s then err (unquotable s) else ok (backquote ∷ s ++ backquote ∷ [])

unfoldable pub dotted_and_quoted : TableName → Result SqlError Text
unfolding display_ident
dotted_and_quoted self = do
  project ← display_ident self.project
  dataset ← display_ident self.dataset
  table ← display_ident self.table
  ok (project ++ codes "." ++ dataset ++ codes "." ++ table)

abbrev newline : Text
newline = 10 ∷ []

-- `join` of the itertools crate.
abbrev pub join : Text → List Text → Text
join separator [] = []
join separator (s ∷ []) = s
join separator (s ∷ t ∷ more) = s ++ separator ++ join separator (t ∷ more)

abbrev pub needs_import_json : BqDataType → Bool
needs_import_json (array _) = true
needs_import_json (non_array (struct _)) = true
needs_import_json (non_array _) = false

module _ (decimal : ℕ → Text) where
  unfoldable pub write_import_expr : BqColumn → ℕ → Text → Text
  unfolding bq_data_type quoted
  write_import_expr self idx table_prefix =
      if needs_import_json (bq_data_type self)
      then codes "ImportJson_"
        ++ decimal idx
        ++ codes "("
        ++ table_prefix
        ++ quoted (name self)
        ++ codes ")"
      else table_prefix ++ quoted (name self)

  unfoldable pub write_import_select_expr : BqColumn → ℕ → Text
  unfolding write_import_expr quoted
  write_import_select_expr self idx =
      write_import_expr self idx [] ++ codes " AS " ++ quoted (name self)

  -- A closure over the columns and their numbers.
  abbrev pub enumerated : (BqColumn → ℕ → Text) → ℕ → List BqColumn → List Text
  enumerated write idx [] = []
  enumerated write idx (col ∷ columns) = write col idx ∷ enumerated write (suc idx) columns

  abbrev column_sql : BqColumn → Text
  column_sql col =
      codes "    "
      ++ quoted (name col)
      ++ codes " "
      ++ display (bq_data_type col)
      ++ (if is_not_null col then codes " NOT NULL" else [])

  -- With the text of the `CreateTableType`.
  unfoldable pub write_create_table_sql : TableName → List BqColumn → Text → Result SqlError Text
  unfolding dotted_and_quoted quoted display bq_data_type is_not_null
  write_create_table_sql self_name columns create_table_type = do
    table ← dotted_and_quoted self_name
    ok (
        create_table_type
        ++ codes " "
        ++ table
        ++ codes " ("
        ++ newline
        ++ join (codes "," ++ newline) (map column_sql columns)
        ++ newline
        ++ codes ");"
        ++ newline)

  unfoldable pub write_insert_sql : TableName → List BqColumn → TableName → Result SqlError Text
  unfolding dotted_and_quoted quoted write_import_select_expr
  write_insert_sql self_name columns source_table_name = do
    table ← dotted_and_quoted self_name
    source ← dotted_and_quoted source_table_name
    ok (
        codes "INSERT INTO "
        ++ table
        ++ codes " ("
        ++ join (codes ",") (map (λ c. quoted (name c)) columns)
        ++ codes ")"
        ++ newline
        ++ codes "SELECT "
        ++ join (codes ",") (enumerated write_import_select_expr 0 columns)
        ++ newline
        ++ codes "FROM "
        ++ source
        ++ codes ";"
        ++ newline)

  -- What is left of the columns, each with its number, when the merge keys are taken out.
  abbrev pub updates : (BqColumn → Bool) → (BqColumn → ℕ → Text) → ℕ → List BqColumn → List Text
  updates is_key write idx [] = []
  updates is_key write idx (c ∷ columns) =
      let rest = updates is_key write (suc idx) columns in
      if is_key c then rest else write c idx ∷ rest
