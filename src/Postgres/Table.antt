-- ===== src/Postgres/Table.antt =====
-- dbcrossbarlib/src/drivers/postgres_shared/table/mod.rs: `CREATE TABLE` declarations.
pub mod Laws
pub mod Alignment
use dbcrossbar.Base.{
  ℕ, Bool, true, false, Option, none, some, Text, text_eq, List, [], ◌∷◌, ◌++◌, codes, Result, ok,
  err, ◌>>=◌, if◌then◌else◌,
}
use dbcrossbar.Separator
use dbcrossbar.Separator.{Separator, new}
use dbcrossbar.Schema.{Column, Table}
use dbcrossbar.IfExists.{IfExists, error, append, overwrite, upsert}
use dbcrossbar.Postgres.TableName.{TableName, quoted, unquoted}
use dbcrossbar.Postgres.Types.{PgError, no_columns, missing_column}
use dbcrossbar.Postgres.Column.{
  PgColumn, from_column, to_column, write_export_select_expr, display_column,
}

pub data CheckCatalog : Type 0 where
  yes no : CheckCatalog

unfoldable pub from_if_exists : IfExists → CheckCatalog
from_if_exists error = no
from_if_exists overwrite = no
from_if_exists append = yes
from_if_exists (upsert _) = yes

pub record PgCreateTable : Type 0 where
  pub name : TableName
  pub columns : List PgColumn
  pub if_not_exists : Bool
  pub temporary : Bool

unfoldable pub from_columns : List Column → Result PgError (List PgColumn)
unfolding from_column
from_columns [] = ok []
from_columns (c ∷ columns) = do col ← from_column c; rest ← from_columns columns; ok (col ∷ rest)

unfoldable pub from_name_and_columns : TableName → List Column → Result PgError PgCreateTable
unfolding from_columns
from_name_and_columns table_name columns = do
  pg_columns ← from_columns columns
  ok (record { name = table_name; columns = pg_columns; if_not_exists = false; temporary = false })

unfoldable pub to_columns : List PgColumn → Result PgError (List Column)
unfolding to_column
to_columns [] = ok []
to_columns (c ∷ columns) = do col ← to_column c; rest ← to_columns columns; ok (col ∷ rest)

unfoldable pub to_table : PgCreateTable → Result PgError Table
unfolding to_columns unquoted
to_table self = do
  columns ← to_columns self.columns
  ok (record { name = unquoted self.name; columns = columns })

-- A `HashMap` collected from pairs keeps the last value of a key.
unfoldable pub column_map_get : List PgColumn → Text → Option PgColumn
column_map_get [] n = none
column_map_get (c ∷ columns) n = elim (column_map_get columns n) [
  | some d ↦ some d
  | none ↦ if text_eq c.name n then some c else none
]

abbrev pub found_or : Option PgColumn → Text → Result PgError PgColumn
found_or (some col) n = ok col
found_or none n = err (missing_column n)

unfoldable pub align_columns : List PgColumn → List PgColumn → Result PgError (List PgColumn)
unfolding column_map_get
align_columns self [] = ok []
align_columns self (c ∷ other) = do
  col ← found_or (column_map_get self c.name) c.name
  rest ← align_columns self other
  ok (col ∷ rest)

unfoldable pub aligned_with : PgCreateTable → PgCreateTable → Result PgError PgCreateTable
unfolding align_columns
aligned_with self other_table = do
  columns ← align_columns self.columns other_table.columns
  ok (record self { columns = columns })

abbrev pub or_default : Option PgCreateTable → PgCreateTable → Result PgError PgCreateTable
or_default (some dest_table) default_dest_table = aligned_with dest_table default_dest_table
or_default none default_dest_table = ok default_dest_table

-- With what the catalog answers, if it is asked.
unfoldable pub from_pg_catalog_or_default :
    CheckCatalog
    → Result PgError (Option PgCreateTable)
    → TableName
    → Table
    → Result PgError PgCreateTable
unfolding from_name_and_columns aligned_with
from_pg_catalog_or_default check_catalog from_pg_catalog table_name default = do
  default_dest_table ← from_name_and_columns table_name default.columns
  elim check_catalog [
    | no ↦ ok default_dest_table
    | yes ↦ from_pg_catalog >>= λ opt_dest_table. or_default opt_dest_table default_dest_table
  ]

-- The loop of `write_export_select_sql` over the columns, with its separator.
unfoldable pub write_exports : Separator → List PgColumn → Result PgError Text
unfolding write_export_select_expr
write_exports sep [] = ok []
write_exports sep (col ∷ columns) = do
  let (sep, printed) = Separator.display sep
  expr ← write_export_select_expr col
  rest ← write_exports sep columns
  ok (printed ++ expr ++ rest)

abbrev pub where_sql : Option Text → Text
where_sql none = []
where_sql (some where_clause) = codes " WHERE (" ++ where_clause ++ codes ")"

abbrev pub is_empty {ℓ} : {A : Type ℓ} → List A → Bool
is_empty [] = true
is_empty (_ ∷ _) = false

unfoldable pub write_export_select_sql : PgCreateTable → Option Text → Result PgError Text
unfolding write_exports quoted
write_export_select_sql self where_clause =
    if is_empty self.columns
    then err no_columns
    else (write_exports (new (codes ",")) self.columns >>= λ exprs.
        ok (
          codes "SELECT " ++ exprs ++ codes " FROM " ++ quoted self.name ++ where_sql where_clause))

unfoldable pub write_export_sql : PgCreateTable → Option Text → Result PgError Text
unfolding write_export_select_sql
write_export_sql self where_clause = do
  select ← write_export_select_sql self where_clause
  ok (codes "COPY (" ++ select ++ codes ") TO STDOUT WITH CSV HEADER")

abbrev newline : Text
newline = 10 ∷ []

abbrev pub where_line : Option Text → Text
where_line none = []
where_line (some where_clause) = codes " WHERE (" ++ where_clause ++ codes ")" ++ newline

unfoldable pub write_count_sql : PgCreateTable → Option Text → Text
unfolding quoted
write_count_sql self where_clause =
    codes "SELECT COUNT(*)"
    ++ newline
    ++ codes " FROM "
    ++ quoted self.name
    ++ newline
    ++ where_line where_clause

-- The loop of the `Display` over the columns: the last has no comma.
unfoldable pub display_columns : (ℕ → Text) → List PgColumn → Text
unfolding display_column
display_columns decimal [] = []
display_columns decimal (col ∷ columns) =
    codes "    "
    ++ display_column decimal col
    ++ (if is_empty columns then newline else codes "," ++ newline)
    ++ display_columns decimal columns

unfoldable pub display : (ℕ → Text) → PgCreateTable → Text
unfolding display_columns quoted
display decimal self =
    codes "CREATE"
    ++ (if self.temporary then codes " TEMPORARY" else [])
    ++ codes " TABLE"
    ++ (if self.if_not_exists then codes " IF NOT EXISTS" else [])
    ++ codes " "
    ++ quoted self.name
    ++ codes " ("
    ++ newline
    ++ display_columns decimal self.columns
    ++ codes ");"
    ++ newline
