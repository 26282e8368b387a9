-- ===== src/Tests/Postgres.antt =====
-- The PostgreSQL names, types, columns and tables at work.
pub mod Binary
pub mod CreateTables
use dbcrossbar.Base.{
  text_eq, ◌≡◌, refl, true, false, not, ◌&&◌, all, map, none, some, List, [], ◌∷◌, ◌++◌, codes,
  drop, ok, ◌>>=◌, is_ok, arith,
}
use dbcrossbar.Schema.{DataType, Column}
use dbcrossbar.Postgres.Quote.{pg_quote, read_literal, apostrophe, read_literal-pg_quote}
use dbcrossbar.Postgres.TableName.{TableName, from_str, unquoted, from_str-unquoted}
use dbcrossbar.Postgres.Types.{PgScalarDataType, array, scalar, from_data_type}
use dbcrossbar.Postgres.Catalog.{PgColumnSchema, fetch_table}
use dbcrossbar.Postgres.Catalog.Laws.{schema_name, fetch_table-exportable}
use dbcrossbar.Postgres.Column.{PgColumn, from_column, to_column}
use dbcrossbar.Postgres.Column.Laws.{returned, is_exportable, to_column-from_column}
use dbcrossbar.Postgres.Table.{
  PgCreateTable, CheckCatalog, from_name_and_columns, to_table, aligned_with,
  from_pg_catalog_or_default, write_export_sql, is_empty,
}
use dbcrossbar.Postgres.Table.Laws.{to_table-from_name_and_columns, is_ok-write_export_sql}
use dbcrossbar.Postgres.Table.Alignment.{
  TakesLast, column_name, portable_name, aligned_with-TakesLast, from_pg_catalog_or_default-names,
}
use dbcrossbar.Postgres.Types.RoundTrip.{depth}

pg_quote_test : pg_quote (codes "'hello'") ≡ codes "'''hello'''"
unfolding pg_quote
pg_quote_test = refl

nested_array_test :
    from_data_type (DataType.array (DataType.array DataType.int32))
    ≡ ok (array 2 PgScalarDataType.int)
unfolding from_data_type
nested_array_test = refl

read_literal-pg_quote_example :
    read_literal apostrophe (pg_quote (codes "it's") ++ codes " x")
    ≡ some (codes "it's", codes " x")
read_literal-pg_quote_example = read_literal-pg_quote (codes "it's") (codes " x") refl

abbrev in_schema : TableName
in_schema = record { schema = some (codes "schema"); table = codes "example" }

abbrev id : Column
id = record {
  name = codes "id";
  is_nullable = false;
  data_type = DataType.int64;
  comment = some [];
}

abbrev tags : Column
tags = record {
  name = codes "tags";
  is_nullable = true;
  data_type = DataType.array DataType.text;
  comment = none;
}

to_table-from_name_and_columns_example :
    (from_name_and_columns in_schema (id ∷ tags ∷ []) >>= to_table)
    ≡ ok (record { name = unquoted in_schema; columns = map returned (id ∷ tags ∷ []) })
unfolding depth
to_table-from_name_and_columns_example =
    to_table-from_name_and_columns in_schema (id ∷ tags ∷ []) (omega arith, (omega arith, tt))

abbrev pg_id : PgColumn
pg_id = record {
  name = codes "id";
  data_type = scalar PgScalarDataType.bigint;
  is_nullable = false;
}

abbrev pg_tags : PgColumn
pg_tags = record {
  name = codes "tags";
  data_type = array 1 PgScalarDataType.text;
  is_nullable = true;
}

abbrev with_columns : List PgColumn → PgCreateTable
with_columns columns = record {
  name = in_schema;
  columns = columns;
  if_not_exists = false;
  temporary = false;
}

aligned_with_test :
    aligned_with (with_columns (pg_id ∷ pg_tags ∷ [])) (with_columns (pg_tags ∷ pg_id ∷ []))
    ≡ ok (with_columns (pg_tags ∷ pg_id ∷ []))
unfolding aligned_with text_eq
aligned_with_test = refl

aligned_with-TakesLast_example :
    TakesLast (pg_id ∷ pg_tags ∷ []) (pg_tags ∷ []) (pg_tags ∷ [])
    × (in_schema ≡ in_schema)
    × (false ≡ false)
    × (false ≡ false)
unfolding aligned_with text_eq
aligned_with-TakesLast_example =
    aligned_with-TakesLast (with_columns (pg_id ∷ pg_tags ∷ [])) (with_columns (pg_tags ∷ []))
      {t = with_columns (pg_tags ∷ [])} refl

from_pg_catalog_or_default-names_example :
    map column_name (pg_tags ∷ pg_id ∷ []) ≡ map portable_name (tags ∷ id ∷ [])
unfolding from_pg_catalog_or_default text_eq
from_pg_catalog_or_default-names_example =
    from_pg_catalog_or_default-names CheckCatalog.yes
      (ok (some (with_columns (pg_id ∷ pg_tags ∷ [])))) in_schema
      (record { name = []; columns = tags ∷ id ∷ [] }) {t = with_columns (pg_tags ∷ pg_id ∷ [])}
      refl

abbrev created : PgColumnSchema
created = record {
  column_name = codes "created";
  is_nullable = codes "NO";
  data_type = codes "ARRAY";
  udt_schema = codes "pg_catalog";
  udt_name = codes "_timestamp";
}

abbrev pg_created : PgColumn
pg_created = record {
  name = codes "created";
  data_type = array 1 PgScalarDataType.timestamp_without_time_zone;
  is_nullable = false;
}

fetch_table-exportable_example :
    (map column_name (pg_created ∷ []) ≡ map schema_name (created ∷ []))
    × (is_ok (write_export_sql (with_columns (pg_created ∷ [])) none) ≡ true)
unfolding fetch_table
fetch_table-exportable_example =
    fetch_table-exportable in_schema created [] [] none {t = with_columns (pg_created ∷ [])} refl
