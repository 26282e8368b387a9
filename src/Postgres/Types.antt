-- ===== src/Postgres/Types.antt =====
-- dbcrossbarlib/src/drivers/postgres_shared/data_type.rs: the types of PostgreSQL.
pub mod RoundTrip
use dbcrossbar.Base.{
  ℕ, zero, suc, ◌+◌, ◌%◌, Bool, true, false, Text, [], ◌++◌, codes, Result, ok, err, ◌>>=◌,
  if◌then◌else◌, ltb,
}
use dbcrossbar.Schema
use dbcrossbar.Schema.{DataType, Srid}

pub data PgScalarDataType : Type 0 where
  boolean date numeric real double_precision : PgScalarDataType
  geometry : Srid → PgScalarDataType
  smallint int bigint json jsonb text timestamp_without_time_zone : PgScalarDataType
  timestamp_with_time_zone uuid : PgScalarDataType

-- The number of dimensions is an `i32`, kept here as its 32 bits.
pub data PgDataType : Type 0 where
  array : ℕ → PgScalarDataType → PgDataType
  scalar : PgScalarDataType → PgDataType

-- `unreachable` is a panic.
pub data PgError : Type 0 where
  unreachable unknown_oid no_columns : PgError
  bad_dimension : Text → ℕ → PgError
  missing_column : Text → PgError
  foreign : Text → PgError

abbrev pub two_to_32 : ℕ
two_to_32 = 4294967296

abbrev pub two_to_31 : ℕ
two_to_31 = 2147483648

abbrev pub scalar_from_data_type : DataType → Result PgError PgScalarDataType
scalar_from_data_type (DataType.array _) = err unreachable
scalar_from_data_type DataType.bool = ok PgScalarDataType.boolean
scalar_from_data_type DataType.date = ok PgScalarDataType.date
scalar_from_data_type DataType.decimal = ok PgScalarDataType.numeric
scalar_from_data_type DataType.float32 = ok PgScalarDataType.real
scalar_from_data_type DataType.float64 = ok PgScalarDataType.double_precision
scalar_from_data_type (DataType.geo_json srid) = ok (PgScalarDataType.geometry srid)
scalar_from_data_type DataType.int16 = ok PgScalarDataType.smallint
scalar_from_data_type DataType.int32 = ok PgScalarDataType.int
scalar_from_data_type DataType.int64 = ok PgScalarDataType.bigint
scalar_from_data_type DataType.json = ok PgScalarDataType.jsonb
scalar_from_data_type (DataType.struct _) = ok PgScalarDataType.jsonb
scalar_from_data_type DataType.text = ok PgScalarDataType.text
scalar_from_data_type DataType.timestamp_without_time_zone =
    ok PgScalarDataType.timestamp_without_time_zone
scalar_from_data_type DataType.timestamp_with_time_zone =
    ok PgScalarDataType.timestamp_with_time_zone
scalar_from_data_type DataType.uuid = ok PgScalarDataType.uuid

abbrev pub scalar_to_data_type : PgScalarDataType → Result PgError DataType
scalar_to_data_type PgScalarDataType.boolean = ok DataType.bool
scalar_to_data_type PgScalarDataType.date = ok DataType.date
scalar_to_data_type PgScalarDataType.numeric = ok DataType.decimal
scalar_to_data_type PgScalarDataType.real = ok DataType.float32
scalar_to_data_type PgScalarDataType.double_precision = ok DataType.float64
scalar_to_data_type (PgScalarDataType.geometry srid) = ok (DataType.geo_json srid)
scalar_to_data_type PgScalarDataType.smallint = ok DataType.int16
scalar_to_data_type PgScalarDataType.int = ok DataType.int32
scalar_to_data_type PgScalarDataType.bigint = ok DataType.int64
scalar_to_data_type PgScalarDataType.json = ok DataType.json
scalar_to_data_type PgScalarDataType.jsonb = ok DataType.json
scalar_to_data_type PgScalarDataType.text = ok DataType.text
scalar_to_data_type PgScalarDataType.timestamp_without_time_zone =
    ok DataType.timestamp_without_time_zone
scalar_to_data_type PgScalarDataType.timestamp_with_time_zone = ok DataType.timestamp_with_time_zone
scalar_to_data_type PgScalarDataType.uuid = ok DataType.uuid

-- The loop that counts the dimensions.
unfoldable pub count_dimensions : ℕ → DataType → ℕ × DataType
count_dimensions dimension_count (DataType.array next) =
    count_dimensions ((dimension_count + 1) % two_to_32) next
count_dimensions dimension_count nested = (dimension_count, nested)

unfoldable pub from_data_type : DataType → Result PgError PgDataType
unfolding count_dimensions
from_data_type (DataType.array nested) = do
  let (dimension_count, nested) = count_dimensions 1 nested
  ty ← scalar_from_data_type nested
  ok (array dimension_count ty)
from_data_type ty = scalar_from_data_type ty >>= λ s. ok (scalar s)

-- How often `for _ in 0..count` goes round, for an `i32`: not at all, for a negative one.
abbrev pub rounds : ℕ → ℕ
rounds count = if ltb count two_to_31 then count else 0

abbrev pub nest : ℕ → DataType → DataType
nest zero built = built
nest (suc n) built = nest n (DataType.array built)

unfoldable pub to_data_type : PgDataType → Result PgError DataType
to_data_type (array dimension_count ty) =
    scalar_to_data_type ty >>= λ built. ok (nest (rounds dimension_count) built)
to_data_type (scalar ty) = scalar_to_data_type ty

unfoldable pub oid : PgScalarDataType → Result PgError ℕ
oid PgScalarDataType.boolean = ok 16
oid PgScalarDataType.date = ok 1082
oid PgScalarDataType.numeric = ok 1700
oid PgScalarDataType.real = ok 700
oid PgScalarDataType.double_precision = ok 701
oid (PgScalarDataType.geometry _) = err unknown_oid
oid PgScalarDataType.smallint = ok 21
oid PgScalarDataType.int = ok 23
oid PgScalarDataType.bigint = ok 20
oid PgScalarDataType.json = ok 114
oid PgScalarDataType.jsonb = ok 3802
oid PgScalarDataType.text = ok 25
oid PgScalarDataType.timestamp_without_time_zone = ok 1114
oid PgScalarDataType.timestamp_with_time_zone = ok 1184
oid PgScalarDataType.uuid = ok 2950

-- The decimal digits of a number are a parameter: they are the formatter's.
abbrev pub display_scalar : (ℕ → Text) → PgScalarDataType → Text
display_scalar decimal PgScalarDataType.boolean = codes "boolean"
display_scalar decimal PgScalarDataType.date = codes "date"
display_scalar decimal PgScalarDataType.numeric = codes "numeric"
display_scalar decimal PgScalarDataType.real = codes "real"
display_scalar decimal PgScalarDataType.double_precision = codes "double precision"
display_scalar decimal (PgScalarDataType.geometry srid) =
    codes "public.geometry(Geometry, " ++ decimal srid.code ++ codes ")"
display_scalar decimal PgScalarDataType.smallint = codes "smallint"
display_scalar decimal PgScalarDataType.int = codes "int"
display_scalar decimal PgScalarDataType.bigint = codes "bigint"
display_scalar decimal PgScalarDataType.json = codes "json"
display_scalar decimal PgScalarDataType.jsonb = codes "jsonb"
display_scalar decimal PgScalarDataType.text = codes "text"
display_scalar decimal PgScalarDataType.timestamp_without_time_zone =
    codes "timestamp without time zone"
display_scalar decimal PgScalarDataType.timestamp_with_time_zone = codes "timestamp with time zone"
display_scalar decimal PgScalarDataType.uuid = codes "uuid"

abbrev pub brackets : ℕ → Text
brackets zero = []
brackets (suc n) = codes "[]" ++ brackets n

unfoldable pub display : (ℕ → Text) → PgDataType → Text
display decimal (array dimension_count ty) =
    display_scalar decimal ty ++ brackets (rounds dimension_count)
display decimal (scalar ty) = display_scalar decimal ty
