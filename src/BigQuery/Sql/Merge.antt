-- ===== src/BigQuery/Sql/Merge.antt =====
-- dbcrossbarlib/src/drivers/bigquery_shared/table.rs: `write_merge_sql`.
use dbcrossbar.Base.{
  subst, ℕ, ◌≡◌, refl, ap, sym, All, Bool, true, Option, none, some, Text, List, [], ◌∷◌, ◌++◌, any,
  map, codes, Result, ok, err, ◌>>=◌, >>=-eq-ok, if-eq-ok, ok-injective, if◌then◌else◌,
}
use dbcrossbar.BigQuery.ColumnName.{ColumnName, NameError, try_from, name_eq, quoted}
use dbcrossbar.BigQuery.ColumnName.Validity.{IsName, of_text, try_from-eq-ok}
use dbcrossbar.BigQuery.Column.{
  BqColumn, column, required, nullable, repeated, mode, name, can_be_merged_on,
}
use dbcrossbar.BigQuery.Table.{column_map_get}
use dbcrossbar.BigQuery.Table.Alignment.{IsLast, column_map_get-IsLast}
use dbcrossbar.BigQuery.Sql.{
  TableName, SqlError, invalid_key, missing_key, nullable_key, dotted_and_quoted, join,
  write_import_expr, enumerated, updates,
}

abbrev key_name : Result NameError ColumnName → Result SqlError ColumnName
key_name (ok n) = ok n
key_name (err e) = err (invalid_key e)

abbrev key_column : Option BqColumn → Text → Result SqlError BqColumn
key_column (some col) key = ok col
key_column none key = err (missing_key key)

-- The merge keys as columns.
unfoldable pub merge_columns : List BqColumn → List Text → Result SqlError (List BqColumn)
unfolding column_map_get try_from
merge_columns columns [] = ok []
merge_columns columns (key ∷ merge_keys) = do
  col_name ← key_name (try_from key)
  col ← key_column (column_map_get columns col_name) key
  rest ← merge_columns columns merge_keys
  ok (col ∷ rest)

-- The loop that refuses a key that might be `NULL`, and what comes after it.
unfoldable pub check_merge_keys {ℓ} :
    {A : Type ℓ} → List BqColumn → Result SqlError A → Result SqlError A
unfolding can_be_merged_on
check_merge_keys [] after = after
check_merge_keys (merge_key ∷ merge_keys) after =
    let rest = check_merge_keys merge_keys after in
    if can_be_merged_on merge_key then rest else err (nullable_key (name merge_key))

abbrev lines : Text
lines = codes "," ++ 10 ∷ codes "    "

module _ (decimal : ℕ → Text) where
  abbrev col_import_expr : BqColumn → ℕ → Text
  col_import_expr c idx = write_import_expr decimal c idx (codes "temp.")

  abbrev comparison : BqColumn → ℕ → Text
  comparison c idx = codes "dest." ++ quoted (name c) ++ codes " = " ++ col_import_expr c idx

  abbrev update : BqColumn → ℕ → Text
  update c idx = quoted (name c) ++ codes " = " ++ col_import_expr c idx

  -- `merge_key_table.contains(&c.name)`.
  abbrev pub is_merge_key : List BqColumn → BqColumn → Bool
  is_merge_key merge_keys c = any (λ k. name_eq (name k) (name c)) merge_keys

  abbrev merge_text : Text → Text → List BqColumn → List BqColumn → Text
  merge_text dest_table temp_table columns merge_keys =
      codes "MERGE INTO "
      ++ dest_table
      ++ codes " AS dest\nUSING "
      ++ temp_table
      ++ codes " AS temp\nON\n    "
      ++ join (codes " AND\n    ") (enumerated decimal comparison 0 merge_keys)
      ++ codes "\nWHEN MATCHED THEN UPDATE SET\n    "
      ++ join lines (updates decimal (is_merge_key merge_keys) update 0 columns)
      ++ codes "\nWHEN NOT MATCHED THEN INSERT (\n    "
      ++ join lines (map (λ c. quoted (name c)) columns)
      ++ codes "\n) VALUES (\n    "
      ++ join lines (enumerated decimal col_import_expr 0 columns)
      ++ codes "\n);\n"

  unfoldable pub write_merge_sql :
      TableName → List BqColumn → TableName → List Text → Result SqlError Text
  unfolding merge_columns check_merge_keys dotted_and_quoted write_import_expr quoted name_eq
  write_merge_sql self_name columns source_table_name merge_keys = do
    merge_keys ← merge_columns columns merge_keys
    check_merge_keys merge_keys (
        dotted_and_quoted self_name >>= λ dest_table.
        dotted_and_quoted source_table_name >>= λ temp_table.
        ok (merge_text dest_table temp_table columns merge_keys))

-- A column that a merge key names and that can never be `NULL`.
abbrev pub IsMergeKey : List BqColumn → Text → Type 0
IsMergeKey columns key =
    (col : BqColumn) × IsName key × IsLast (of_text key) col columns × (mode col ≡ required)

-- Of the three modes, one can be merged on.
can_be_merged_on-required : (col : BqColumn) → can_be_merged_on col ≡ true → mode col ≡ required
unfolding can_be_merged_on
can_be_merged_on-required (column d n ty required fs) h = refl
can_be_merged_on-required (column d n ty nullable fs) h = absurd (cc)
can_be_merged_on-required (column d n ty repeated fs) h = absurd (cc)

key_name-eq-ok : (r : Result NameError ColumnName) {n : ColumnName} → key_name r ≡ ok n → r ≡ ok n
key_name-eq-ok (ok m) e = ap ok (ok-injective e)
key_name-eq-ok (err x) e = cc

key_column-eq-ok :
    (o : Option BqColumn) (key : Text) {c : BqColumn} → key_column o key ≡ ok c → o ≡ some c
key_column-eq-ok (some d) key e = ap some (ok-injective e)
key_column-eq-ok none key e = cc

merge-IsMergeKey :
    {A : Type 0} (columns : List BqColumn) (merge_keys : List Text) {cols : List BqColumn}
    (after : Result SqlError A) {a : A}
    → merge_columns columns merge_keys ≡ ok cols
    → check_merge_keys cols after ≡ ok a
    → All (IsMergeKey columns) merge_keys
unfolding merge_columns check_merge_keys
merge-IsMergeKey columns [] after found checked = tt
merge-IsMergeKey columns (key ∷ merge_keys) after {a} found checked =
    let (n, p, q) = >>=-eq-ok (key_name (try_from key)) _ found in
    let (valid, same) = try_from-eq-ok key (key_name-eq-ok (try_from key) p) in
    let (col, r, s) = >>=-eq-ok (key_column (column_map_get columns n) key) _ q in
    let (rest, t, u) = >>=-eq-ok (merge_columns columns merge_keys) _ s in
    let all_checked =
      subst (λ cs. check_merge_keys cs after ≡ ok a) (sym (ok-injective u)) checked in
    let (mergeable, rest_checked) =
      if-eq-ok (can_be_merged_on col) (check_merge_keys rest after) (nullable_key (name col))
        all_checked in
    let last =
      column_map_get-IsLast n columns (key_column-eq-ok (column_map_get columns n) key r) in
    (
      (
        col,
        valid,
        subst (λ m. IsLast m col columns) (sym same) last,
        can_be_merged_on-required col mergeable,
      ),
      merge-IsMergeKey columns merge_keys after t rest_checked,
    )

-- If the `MERGE` statement is written, then each merge key is a column name, is the name of a column
-- of the table, up to the case of letters, and this column is `REQUIRED`, so that no row is merged
-- on a `NULL`.
pub write_merge_sql-IsMergeKey :
    (decimal : ℕ → Text) (self_name : TableName) (columns : List BqColumn)
    (source_table_name : TableName) (merge_keys : List Text) {sql : Text}
    → write_merge_sql decimal self_name columns source_table_name merge_keys ≡ ok sql
    → All (IsMergeKey columns) merge_keys
unfolding write_merge_sql
write_merge_sql-IsMergeKey decimal self_name columns source_table_name merge_keys e =
    let (cols, found, checked) = >>=-eq-ok (merge_columns columns merge_keys) _ e in
    merge-IsMergeKey columns merge_keys _ found checked
