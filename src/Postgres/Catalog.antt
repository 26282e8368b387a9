-- ===== src/Postgres/Catalog.antt =====
-- dbcrossbarlib/src/drivers/postgres_shared/catalog.rs: the table that the rows of PostgreSQL's
-- catalog describe. The answers of its queries are arguments.
pub mod Laws
use dbcrossbar.Base.{
  ◌==◌, ℕ, ◌<◌, Bool, true, false, ◌&&◌, Option, none, some, Text, text_eq, List, [], ◌∷◌, any,
  codes, ltb, Result, ok, err, ◌>>=◌, if◌then◌else◌,
}
use dbcrossbar.Schema.{Srid}
use dbcrossbar.Postgres.TableName.{TableName}
use dbcrossbar.Postgres.Types.{PgDataType, PgScalarDataType, array, scalar, two_to_31}
use dbcrossbar.Postgres.Column.{PgColumn}
use dbcrossbar.Postgres.Table.{PgCreateTable}

-- A row of `information_schema.columns`.
pub record PgColumnSchema : Type 0 where
  pub column_name : Text
  pub is_nullable : Text
  pub data_type : Text
  pub udt_schema : Text
  pub udt_name : Text

pub data CatalogError : Type 0 where
  unknown_array_element unknown_user_defined unknown_data_type bad_is_nullable : Text → CatalogError
  no_srid negative_srid : CatalogError

-- A `match` on literals: the first that is met.
unfoldable pub lookup {ℓ} : {A : Type ℓ} → List (Text × A) → Text → Option A
unfolding text_eq
lookup [] s = none
lookup ((literal, a) ∷ arms) s =
    let rest = lookup arms s in if text_eq s literal then some a else rest

abbrev pub element_types : List (Text × PgScalarDataType)
element_types =
    (codes "_bool", PgScalarDataType.boolean)
    ∷ (codes "_date", PgScalarDataType.date)
    ∷ (codes "_float4", PgScalarDataType.real)
    ∷ (codes "_float8", PgScalarDataType.double_precision)
    ∷ (codes "_int2", PgScalarDataType.smallint)
    ∷ (codes "_int4", PgScalarDataType.int)
    ∷ (codes "_int8", PgScalarDataType.bigint)
    ∷ (codes "_text", PgScalarDataType.text)
    ∷ (codes "_timestamp", PgScalarDataType.timestamp_without_time_zone)
    ∷ (codes "_timestamptz", PgScalarDataType.timestamp_with_time_zone)
    ∷ (codes "_uuid", PgScalarDataType.uuid)
    ∷ (codes "_varchar", PgScalarDataType.text)
    ∷ []

abbrev pub basic_types : List (Text × PgScalarDataType)
basic_types =
    (codes "bigint", PgScalarDataType.bigint)
    ∷ (codes "boolean", PgScalarDataType.boolean)
    ∷ (codes "character", PgScalarDataType.text)
    ∷ (codes "character varying", PgScalarDataType.text)
    ∷ (codes "date", PgScalarDataType.date)
    ∷ (codes "double precision", PgScalarDataType.double_precision)
    ∷ (codes "integer", PgScalarDataType.int)
    ∷ (codes "json", PgScalarDataType.json)
    ∷ (codes "jsonb", PgScalarDataType.jsonb)
    ∷ (codes "numeric", PgScalarDataType.numeric)
    ∷ (codes "real", PgScalarDataType.real)
    ∷ (codes "smallint", PgScalarDataType.smallint)
    ∷ (codes "text", PgScalarDataType.text)
    ∷ (codes "timestamp with time zone", PgScalarDataType.timestamp_with_time_zone)
    ∷ (codes "timestamp without time zone", PgScalarDataType.timestamp_without_time_zone)
    ∷ (codes "uuid", PgScalarDataType.uuid)
    ∷ []

abbrev pub of_element : Option PgScalarDataType → Text → Result CatalogError PgDataType
of_element (some ty) udt_name = ok (array 1 ty)
of_element none udt_name = err (unknown_array_element udt_name)

abbrev pub of_basic : Option PgScalarDataType → Text → Result CatalogError PgDataType
of_basic (some ty) data_type = ok (scalar ty)
of_basic none data_type = err (unknown_data_type data_type)

abbrev user_defined : Text → Result CatalogError PgDataType
user_defined udt_name =
    if text_eq udt_name (codes "citext")
    then ok (scalar PgScalarDataType.text)
    else (if text_eq udt_name (codes "geometry")
        then err no_srid
        else err (unknown_user_defined udt_name))

unfoldable pub pg_data_type : Text → Text → Result CatalogError PgDataType
unfolding lookup text_eq
pg_data_type data_type udt_name =
    if text_eq data_type (codes "ARRAY")
    then of_element (lookup element_types udt_name) udt_name
    else (if text_eq data_type (codes "USER-DEFINED")
        then user_defined udt_name
        else of_basic (lookup basic_types data_type) data_type)

-- `need_srids`.
abbrev pub need_srids : List PgColumnSchema → Bool
need_srids pg_columns =
    any (λ c. text_eq c.data_type (codes "USER-DEFINED") && text_eq c.udt_name (codes "geometry"))
      pg_columns

-- The rows with the `i32` that `Find_SRID` gives, kept as its 32 bits, as `u32`.
unfoldable pub srids_of : List (Text × ℕ) → Result CatalogError (List (Text × Srid))
srids_of [] = ok []
srids_of ((name, srid) ∷ rows) =
    let rest = srids_of rows in
    if ltb srid two_to_31
    then (rest >>= λ srids. ok ((name, record { code = srid }) ∷ srids))
    else err negative_srid

-- A `HashMap` collected from pairs keeps the last value of a key.
unfoldable pub srid_map_get : List (Text × Srid) → Text → Option Srid
unfolding text_eq
srid_map_get [] n = none
srid_map_get ((name, srid) ∷ rows) n = elim (srid_map_get rows n) [
  | some found ↦ some found
  | none ↦ if text_eq name n then some srid else none
]

abbrev pub column_type : Option Srid → PgColumnSchema → Result CatalogError PgDataType
column_type (some srid) pg_col = ok (scalar (PgScalarDataType.geometry srid))
column_type none pg_col = pg_data_type pg_col.data_type pg_col.udt_name

abbrev pub parse_is_nullable : Text → Result CatalogError Bool
parse_is_nullable value =
    if text_eq value (codes "YES")
    then ok true
    else (if text_eq value (codes "NO") then ok false else err (bad_is_nullable value))

-- The loop over the columns.
unfoldable pub build_columns :
    List (Text × Srid) → List PgColumnSchema → Result CatalogError (List PgColumn)
unfolding srid_map_get pg_data_type text_eq
build_columns srid_map [] = ok []
build_columns srid_map (pg_col ∷ pg_columns) = do
  data_type ← column_type (srid_map_get srid_map pg_col.column_name) pg_col
  is_nullable ← parse_is_nullable pg_col.is_nullable
  rest ← build_columns srid_map pg_columns
  ok (record { name = pg_col.column_name; data_type = data_type; is_nullable = is_nullable } ∷ rest)

-- The table that is found, from the rows of its columns and those of its geometry columns.
unfoldable pub fetch_table :
    TableName → List PgColumnSchema → List (Text × ℕ) → Result CatalogError PgCreateTable
unfolding build_columns srids_of text_eq
fetch_table table_name pg_columns srid_rows = do
  srid_map ← srids_of (if need_srids pg_columns then srid_rows else [])
  columns ← build_columns srid_map pg_columns
  ok (record { name = table_name; columns = columns; if_not_exists = false; temporary = false })

-- The source first counts the tables of this name.
unfoldable pub fetch_from_url :
    ℕ
    → TableName
    → List PgColumnSchema
    → List (Text × ℕ)
    → Result CatalogError (Option PgCreateTable)
unfolding fetch_table
fetch_from_url table_count table_name pg_columns srid_rows =
    let fetched = fetch_table table_name pg_columns srid_rows in
    if table_count == 0 then ok none else (fetched >>= λ t. ok (some t))
