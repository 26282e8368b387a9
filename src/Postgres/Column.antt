-- ===== src/Postgres/Column.antt =====
-- dbcrossbarlib/src/drivers/postgres_shared/column.rs: the columns of a PostgreSQL table.
pub mod Laws
use dbcrossbar.Base.{
  ℕ, ◌==◌, Bool, true, false, Option, none, some, Text, [], ◌++◌, codes, Result, ok, err, ◌>>=◌,
  if◌then◌else◌,
}
use dbcrossbar.Schema.{Column}
use dbcrossbar.Postgres.Types.{
  PgDataType, PgScalarDataType, PgError, array, scalar, from_data_type, to_data_type, display,
  bad_dimension,
}
use dbcrossbar.Postgres.Quote.{display_ident}

pub record PgColumn : Type 0 where
  pub name : Text
  pub data_type : PgDataType
  pub is_nullable : Bool

unfoldable pub from_column : Column → Result PgError PgColumn
unfolding from_data_type
from_column col = do
  data_type ← from_data_type col.data_type
  ok (record { name = col.name; data_type = data_type; is_nullable = col.is_nullable })

unfoldable pub to_column : PgColumn → Result PgError Column
unfolding to_data_type
to_column self = do
  data_type ← to_data_type self.data_type
  ok (record {
    name = self.name;
    data_type = data_type;
    is_nullable = self.is_nullable;
    comment = none;
  })

abbrev pub check_dimension : Text → ℕ → Text → Result PgError Text
check_dimension name dimension_count written =
    if dimension_count == 1 then ok written else err (bad_dimension name dimension_count)

-- `to_char` in ISO 8601, without the zeros that trail, of a value at a time zone or without one.
abbrev iso_8601 : Text → Text
iso_8601 value =
    codes "TRIM(TRAILING '.' FROM TRIM(TRAILING '0' FROM to_char("
    ++ value
    ++ codes ", 'YYYY-MM-DD\"T\"HH24:MI:SS.US')))"

abbrev select_elems : Text → Text → Text
select_elems elem name =
    codes "(SELECT array_to_json(array_agg((elem))) FROM (SELECT "
    ++ elem
    ++ codes " FROM unnest("
    ++ name
    ++ codes ") AS elem) AS elems) AS "
    ++ name

abbrev select_expr : Text → Text → PgDataType → Result PgError Text
select_expr column name (array dimension_count PgScalarDataType.bigint) =
    check_dimension column dimension_count (select_elems (codes "elem::text") name)
select_expr column name (array dimension_count PgScalarDataType.timestamp_without_time_zone) =
    check_dimension column dimension_count
      (select_elems (iso_8601 (codes "elem") ++ codes " AS elem") name)
select_expr column name (array dimension_count PgScalarDataType.timestamp_with_time_zone) =
    check_dimension column dimension_count
      (select_elems (iso_8601 (codes "elem AT TIME ZONE 'UTC'") ++ codes " || 'Z' AS elem") name)
select_expr column name (array _ _) = ok (codes "array_to_json(" ++ name ++ codes ") AS " ++ name)
select_expr column name (scalar (PgScalarDataType.geometry _)) =
    ok (codes "ST_AsGeoJSON(" ++ name ++ codes ") AS " ++ name)
select_expr column name (scalar PgScalarDataType.timestamp_without_time_zone) =
    ok (iso_8601 name ++ codes " AS " ++ name)
select_expr column name (scalar PgScalarDataType.timestamp_with_time_zone) =
    ok (iso_8601 (name ++ codes " AT TIME ZONE 'UTC'") ++ codes " || 'Z' AS " ++ name)
select_expr column name (scalar _) = ok name

-- What `write_export_select_expr` writes.
unfoldable pub write_export_select_expr : PgColumn → Result PgError Text
unfolding display_ident
write_export_select_expr self = select_expr self.name (display_ident self.name) self.data_type

-- The `Display` of a column.
unfoldable pub display_column : (ℕ → Text) → PgColumn → Text
unfolding display_ident display
display_column decimal self =
    display_ident self.name
    ++ codes " "
    ++ display decimal self.data_type
    ++ (if self.is_nullable then [] else codes " NOT NULL")
