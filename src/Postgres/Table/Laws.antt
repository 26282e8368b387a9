-- ===== src/Postgres/Table/Laws.antt =====
-- A portable table comes back from PostgreSQL, and which tables can be exported.
use dbcrossbar.Base.{
  if◌then◌else◌, codes, is_ok-map, ap₂, ◌++◌, ◌∙◌, is_ok, is_ok->>=, not, ◌&&◌, all, All, map, ◌<◌,
  ◌≡◌, refl, Option, List, [], ◌∷◌, Text, Result, ok, err, ◌>>=◌, >>=-eq-ok,
}
use dbcrossbar.Separator
use dbcrossbar.Separator.{Separator, new}
use dbcrossbar.Schema.{Column}
use dbcrossbar.Postgres.TableName.{TableName, unquoted}
use dbcrossbar.Postgres.Types.{PgError, two_to_31}
use dbcrossbar.Postgres.Types.RoundTrip.{depth}
use dbcrossbar.Postgres.Column.{PgColumn, from_column, to_column, write_export_select_expr}
use dbcrossbar.Postgres.Column.Laws.{
  returned, is_exportable, to_column-from_column, is_ok-write_export_select_expr,
}
use dbcrossbar.Postgres.Table.{
  PgCreateTable, from_columns, to_columns, from_name_and_columns, to_table, is_empty, write_exports,
  write_export_select_sql, write_export_sql, no_columns,
}

abbrev pub IsShallow : Column → Type 0
IsShallow col = depth col.data_type < two_to_31

columns_return :
    (columns : List Column)
    → All IsShallow columns
    → (pgs : List PgColumn) × (from_columns columns ≡ ok pgs)
      × (to_columns pgs ≡ ok (map returned columns))
unfolding from_columns to_columns
columns_return [] _ = ([], refl, refl)
columns_return (c ∷ columns) (h, hs) =
    let (pg, from, to) = >>=-eq-ok (from_column c) to_column (to_column-from_column c h) in
    let (pgs, from_all, to_all) = columns_return columns hs in
    (pg ∷ pgs, rw from (rw from_all), rw to (rw to_all))

-- A portable table with arrays nested less than 2^31 deep becomes a PostgreSQL table, which becomes
-- a portable table with the same columns in the same order, without their comments and with JSON
-- for their structs, and with the name that the PostgreSQL table was given.
pub to_table-from_name_and_columns :
    (table_name : TableName) (columns : List Column)
    → All IsShallow columns
    → (from_name_and_columns table_name columns >>= to_table)
      ≡ ok (record { name = unquoted table_name; columns = map returned columns })
unfolding from_name_and_columns to_table
to_table-from_name_and_columns table_name columns h =
    let (pgs, from, to) = columns_return columns h in rw from (rw to)

is_ok-write_exports :
    (sep : Separator) (columns : List PgColumn)
    → is_ok (write_exports sep columns) ≡ all (λ c. is_exportable c.data_type) columns
unfolding write_exports
is_ok-write_exports sep [] = refl
is_ok-write_exports sep (c ∷ columns) =
    let after = Separator.display sep in
    is_ok->>= (write_export_select_expr c)
      (λ expr. write_exports after.0 columns >>= λ rest. ok (after.1 ++ expr ++ rest))
      (is_ok (write_exports after.0 columns))
      (λ expr. is_ok-map (write_exports after.0 columns) λ rest. after.1 ++ expr ++ rest)
    ∙ ap₂ ◌&&◌ (is_ok-write_export_select_expr c) (is_ok-write_exports after.0 columns)

is_ok-unless_empty :
    (columns : List PgColumn) (written : Result PgError Text)
    → is_ok written ≡ all (λ c. is_exportable c.data_type) columns
    → is_ok (if is_empty columns then err no_columns else written)
      ≡ (not (is_empty columns) && all (λ c. is_exportable c.data_type) columns)
is_ok-unless_empty [] written h = refl
is_ok-unless_empty (c ∷ columns) written h = h

is_ok-write_export_select_sql :
    (self : PgCreateTable) (where_clause : Option Text)
    → is_ok (write_export_select_sql self where_clause)
      ≡ (not (is_empty self.columns) && all (λ c. is_exportable c.data_type) self.columns)
unfolding write_export_select_sql
is_ok-write_export_select_sql self where_clause = is_ok-unless_empty self.columns _ (
    is_ok-map (write_exports (new (codes ",")) self.columns) _
    ∙ is_ok-write_exports (new (codes ",")) self.columns)

-- The `COPY` statement is written exactly when the table has columns and each of them can be
-- exported, whatever the `WHERE` clause.
pub is_ok-write_export_sql :
    (self : PgCreateTable) (where_clause : Option Text)
    → is_ok (write_export_sql self where_clause)
      ≡ (not (is_empty self.columns) && all (λ c. is_exportable c.data_type) self.columns)
unfolding write_export_sql write_export_select_sql
is_ok-write_export_sql self where_clause =
    is_ok-map (write_export_select_sql self where_clause) _
    ∙ is_ok-write_export_select_sql self where_clause
