-- ===== src/Schema.antt =====
-- dbcrossbarlib/src/schema.rs: the portable table schema, the format between all others.
pub mod Equality
use dbcrossbar.Base.{ℕ, Bool, true, false, Text, Option, List}

-- A spatial reference system, by its `u32` code.
pub record Srid : Type 0 where
  pub code : ℕ

abbrev pub wgs84 : Srid
wgs84 = record { code = 4326 }

-- `StructFields` is the `Vec<StructField>` of a struct: name, nullability and type of each field.
mutual
  pub data DataType : Type 0 where
    array : DataType → DataType
    bool date decimal float32 float64 : DataType
    geo_json : Srid → DataType
    int16 int32 int64 json text : DataType
    struct : StructFields → DataType
    timestamp_without_time_zone timestamp_with_time_zone uuid : DataType

  pub data StructFields : Type 0 where
    nil : StructFields
    field : Text → Bool → DataType → StructFields → StructFields

pub record Column : Type 0 where
  pub name : Text
  pub is_nullable : Bool
  pub data_type : DataType
  pub comment : Option Text

pub record Table : Type 0 where
  pub name : Text
  pub columns : List Column

unfoldable pub serializes_as_json_for_csv : DataType → Bool
serializes_as_json_for_csv (DataType.array _) = true
serializes_as_json_for_csv (DataType.geo_json _) = true
serializes_as_json_for_csv DataType.json = true
serializes_as_json_for_csv (DataType.struct _) = true
serializes_as_json_for_csv _ = false
