-- ===== src/BigQuery/Convert.antt =====
-- dbcrossbarlib/src/drivers/bigquery_shared/data_type/mod.rs: between portable types and BigQuery's.
pub mod CsvLoad
pub mod RoundTrip
use dbcrossbar.Base.{
  Bool, true, false, ◌==◌, Option, some, none, Text, List, [], ◌∷◌, Result, ok, err, ◌>>=◌, text_eq,
  any, if◌then◌else◌,
}
use dbcrossbar.Schema.{DataType, StructFields, wgs84}
use dbcrossbar.BigQuery.ColumnName.{ColumnName, NameError, to_portable_name, try_from}
use dbcrossbar.BigQuery.Types.{
  BqDataType, BqNonArrayDataType, BqFields, array, non_array, bool, bytes, date, datetime, float64,
  geography, int64, numeric, string, stringified, struct, time, timestamp, nil, field, Usage,
  csv_load, final_table,
}

pub data ConvertError : Type 0 where
  nested_array_in_csv_mode array_of_json : ConvertError
  bad_name : NameError → ConvertError
  one_anonymous_field anonymous_field : ConvertError
  duplicate_field : Text → ConvertError
  no_portable_type : ConvertError

abbrev pub Converted : Type 0 → Type 0
Converted A = Result ConvertError A

-- `ColumnName::try_from(&f.name)?`.
abbrev pub lift_name : Result NameError ColumnName → Converted ColumnName
lift_name (ok n) = ok n
lift_name (err e) = err (bad_name e)

abbrev pub name_for : Text → Converted ColumnName
name_for s = lift_name (try_from s)

-- The arms of `BqDataType::for_data_type`: for an array of `nested`, and for any other type.
abbrev pub for_array : DataType → Converted BqNonArrayDataType → Converted BqDataType
for_array DataType.json element = err array_of_json
for_array _ element = do bq_nested ← element; ok (array bq_nested)

abbrev pub for_other : Converted BqNonArrayDataType → Converted BqDataType
for_other other = do bq_other ← other; ok (non_array bq_other)

-- A struct's field is `BqDataType::for_data_type` of its type: `for_fields-field` in RoundTrip.
unfoldable mutual
  -- `BqNonArrayDataType::for_data_type`.
  pub for_non_array : DataType → Usage → Converted BqNonArrayDataType
  for_non_array (DataType.array nested) csv_load = err nested_array_in_csv_mode
  for_non_array (DataType.array nested) final_table = do
    bq_nested ← for_non_array nested final_table
    ok (struct (field none (array bq_nested) nil))
  for_non_array DataType.bool usage = ok bool
  for_non_array DataType.date usage = ok date
  for_non_array DataType.decimal usage = ok numeric
  for_non_array DataType.float32 usage = ok float64
  for_non_array DataType.float64 usage = ok float64
  for_non_array (DataType.geo_json srid) usage =
      if srid.code == 4326 then ok geography else ok (stringified (DataType.geo_json srid))
  for_non_array DataType.int16 usage = ok int64
  for_non_array DataType.int32 usage = ok int64
  for_non_array DataType.int64 usage = ok int64
  for_non_array DataType.json usage = ok (stringified DataType.json)
  for_non_array (DataType.struct fields) csv_load = ok string
  for_non_array (DataType.struct fields) final_table = do
    bq_fields ← for_fields fields
    ok (struct bq_fields)
  for_non_array DataType.text usage = ok string
  for_non_array DataType.timestamp_without_time_zone usage = ok datetime
  for_non_array DataType.timestamp_with_time_zone usage = ok timestamp
  for_non_array DataType.uuid usage = ok (stringified DataType.uuid)

  -- `BqStructField::for_struct_field` on each field.
  pub for_fields : StructFields → Converted BqFields
  for_fields StructFields.nil = ok nil
  for_fields (StructFields.field name is_nullable (DataType.array nested) fields) = do
    n ← name_for name
    ty ← for_array nested (for_non_array nested final_table)
    rest ← for_fields fields
    ok (field (some n) ty rest)
  for_fields (StructFields.field name is_nullable data_type fields) = do
    n ← name_for name
    ty ← for_other (for_non_array data_type final_table)
    rest ← for_fields fields
    ok (field (some n) ty rest)

-- `BqDataType::for_data_type`.
unfoldable pub for_data_type : DataType → Usage → Converted BqDataType
for_data_type (DataType.array nested) csv_load = ok (non_array string)
for_data_type (DataType.array nested) final_table =
    for_array nested (for_non_array nested final_table)
for_data_type other usage = for_other (for_non_array other usage)

-- The test for `bq_fields.len() == 1 && bq_fields[0].name.is_none()`.
abbrev pub is_one_anonymous : BqFields → Bool
is_one_anonymous (field none ty nil) = true
is_one_anonymous _ = false

-- The loop over the names, with the set of those seen: the first that is met again.
unfoldable pub find_duplicate : List Text → StructFields → Option Text
find_duplicate names StructFields.nil = none
find_duplicate names (StructFields.field name is_nullable data_type fields) =
    let rest = find_duplicate (name ∷ names) fields in
    if any (text_eq name) names then some name else rest

abbrev pub check_names : StructFields → Option Text → Converted DataType
check_names fields none = ok (DataType.struct fields)
check_names fields (some name) = err (duplicate_field name)

unfoldable mutual
  unfolding find_duplicate

  -- `BqDataType::to_data_type`.
  pub to_data_type : BqDataType → Converted DataType
  to_data_type (array ty) = do element ← to_non_array ty; ok (DataType.array element)
  to_data_type (non_array ty) = to_non_array ty

  -- `BqNonArrayDataType::to_data_type`.
  pub to_non_array : BqNonArrayDataType → Converted DataType
  to_non_array bool = ok DataType.bool
  to_non_array date = ok DataType.date
  to_non_array numeric = ok DataType.decimal
  to_non_array float64 = ok DataType.float64
  to_non_array geography = ok (DataType.geo_json wgs84)
  to_non_array int64 = ok DataType.int64
  to_non_array string = ok DataType.text
  to_non_array (stringified ty) = ok ty
  to_non_array datetime = ok DataType.timestamp_without_time_zone
  to_non_array (struct bq_fields) =
      let converted = to_fields bq_fields in
      if is_one_anonymous bq_fields
      then err one_anonymous_field
      else (converted >>= λ fields. check_names fields (find_duplicate [] fields))
  to_non_array timestamp = ok DataType.timestamp_with_time_zone
  to_non_array bytes = err no_portable_type
  to_non_array time = err no_portable_type

  -- `BqStructField::to_struct_field` on each field.
  pub to_fields : BqFields → Converted StructFields
  to_fields nil = ok StructFields.nil
  to_fields (field none ty fields) = err anonymous_field
  to_fields (field (some name) ty fields) = do
    data_type ← to_data_type ty
    rest ← to_fields fields
    ok (StructFields.field (to_portable_name name) true data_type rest)

-- `bigquery_can_import_from_csv`, of a BigQuery type and of a portable one.
abbrev pub bq_can_import_from_csv : BqDataType → Bool
bq_can_import_from_csv (array _) = true
bq_can_import_from_csv (non_array _) = false

unfoldable pub can_import_from_csv : DataType → Converted Bool
unfolding for_data_type
can_import_from_csv data_type = do
  bq_data_type ← for_data_type data_type final_table
  ok (bq_can_import_from_csv bq_data_type)
