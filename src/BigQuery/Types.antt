-- ===== src/BigQuery/Types.antt =====
-- The types of dbcrossbarlib/src/drivers/bigquery_shared/data_type/mod.rs, and how they are written.
use dbcrossbar.Base.{Text, Option, none, some, codes, [], ◌++◌}
use dbcrossbar.Schema.{DataType}
use dbcrossbar.Separator
use dbcrossbar.Separator.{Separator}
use dbcrossbar.BigQuery.ColumnName.{ColumnName, quoted}

pub data Usage : Type 0 where
  csv_load final_table : Usage

-- `BqFields` is the `Vec<BqStructField>` of a struct: an optional name and the type of each field.
mutual
  pub data BqDataType : Type 0 where
    array : BqNonArrayDataType → BqDataType
    non_array : BqNonArrayDataType → BqDataType

  pub data BqNonArrayDataType : Type 0 where
    bool bytes date datetime float64 geography int64 numeric string : BqNonArrayDataType
    stringified : DataType → BqNonArrayDataType
    struct : BqFields → BqNonArrayDataType
    time timestamp : BqNonArrayDataType

  pub data BqFields : Type 0 where
    nil : BqFields
    field : Option ColumnName → BqDataType → BqFields → BqFields

pub data BqRecordOrNonArrayDataType : Type 0 where
  record_type : BqRecordOrNonArrayDataType
  data_type : BqNonArrayDataType → BqRecordOrNonArrayDataType

-- The name of a field as `Display` writes it, with the space behind it.
abbrev pub display_name : Option ColumnName → Text
display_name none = []
display_name (some n) = quoted n ++ codes " "

-- `fmt::Display` for the three types. The loop over the fields carries the separator.
unfoldable mutual
  pub display : BqDataType → Text
  display (array element_type) = codes "ARRAY<" ++ (display_non_array element_type ++ codes ">")
  display (non_array ty) = display_non_array ty

  pub display_non_array : BqNonArrayDataType → Text
  display_non_array bool = codes "BOOL"
  display_non_array bytes = codes "BYTES"
  display_non_array date = codes "DATE"
  display_non_array datetime = codes "DATETIME"
  display_non_array float64 = codes "FLOAT64"
  display_non_array geography = codes "GEOGRAPHY"
  display_non_array int64 = codes "INT64"
  display_non_array numeric = codes "NUMERIC"
  display_non_array string = codes "STRING"
  display_non_array (stringified _) = codes "STRING"
  display_non_array (struct fields) =
      codes "STRUCT<" ++ (display_fields fields (Separator.new (codes ",")) ++ codes ">")
  display_non_array time = codes "TIME"
  display_non_array timestamp = codes "TIMESTAMP"

  pub display_fields : BqFields → Separator → Text
  display_fields nil sep = []
  display_fields (field name ty fields) sep =
      let (sep', text) = Separator.display sep in
      text ++ ((display_name name ++ display ty) ++ display_fields fields sep')

unfoldable pub display_record_or_non_array : BqRecordOrNonArrayDataType → Text
display_record_or_non_array record_type = codes "RECORD"
display_record_or_non_array (data_type ty) = display_non_array ty
