-- ===== src/BigQuery/Column.antt =====
-- dbcrossbarlib/src/drivers/bigquery_shared/column.rs: the columns of a BigQuery table.
pub mod Laws
use dbcrossbar.Base.{
  Bool, true, false, Option, some, none, Text, Result, ok, err, ◌>>=◌, if◌then◌else◌,
}
use dbcrossbar.Schema.{Column}
use dbcrossbar.BigQuery.ColumnName.{ColumnName, to_portable_name, name_eq}
use dbcrossbar.BigQuery.Types.{
  BqDataType, BqNonArrayDataType, BqFields, BqRecordOrNonArrayDataType, array, non_array, struct,
  nil, field, record_type, data_type, Usage,
}
use dbcrossbar.BigQuery.Convert.{Converted, for_data_type, to_data_type}
use dbcrossbar.BigQuery.Align
use dbcrossbar.BigQuery.Align.{Aligned, AlignError}

pub data Mode : Type 0 where
  required nullable repeated : Mode

-- A column's parts are its description, name, type and mode, and the columns under a `RECORD`.
mutual
  pub data BqColumn : Type 0 where
    column : Option Text → ColumnName → BqRecordOrNonArrayDataType → Mode → BqColumns → BqColumn

  pub data BqColumns : Type 0 where
    no_columns : BqColumns
    one_more : BqColumn → BqColumns → BqColumns

abbrev pub description : BqColumn → Option Text
description (column d n ty m fs) = d

abbrev pub name : BqColumn → ColumnName
name (column d n ty m fs) = n

abbrev pub mode : BqColumn → Mode
mode (column d n ty m fs) = m

-- The type and the mode that a BigQuery type comes to.
abbrev pub with_mode : Bool → BqDataType → BqNonArrayDataType × Mode
with_mode is_nullable (array ty) = (ty, repeated)
with_mode is_nullable (non_array ty) = (ty, if is_nullable then nullable else required)

unfoldable pub for_column : ColumnName → Column → Usage → Converted BqColumn
for_column name col usage = do
  bq_data_type ← for_data_type col.data_type usage
  let (ty, mode) = with_mode col.is_nullable bq_data_type
  ok (column none name (data_type ty) mode no_columns)

abbrev pub by_mode : Mode → BqNonArrayDataType → BqDataType
by_mode repeated ty = array ty
by_mode nullable ty = non_array ty
by_mode required ty = non_array ty

-- `bq_data_type`, which the source declares fallible and which has no way to fail, and
-- `to_struct_field` on each column of a record.
unfoldable mutual
  pub bq_data_type : BqColumn → BqDataType
  bq_data_type (column d n record_type mode fields) =
      by_mode mode (struct (to_struct_fields fields))
  bq_data_type (column d n (data_type ty) mode fields) = by_mode mode ty

  pub to_struct_fields : BqColumns → BqFields
  to_struct_fields no_columns = nil
  to_struct_fields (one_more (column d n record_type mode fields) columns) =
      field (some n) (by_mode mode (struct (to_struct_fields fields))) (to_struct_fields columns)
  to_struct_fields (one_more (column d n (data_type ty) mode fields) columns) =
      field (some n) (by_mode mode ty) (to_struct_fields columns)

abbrev pub is_nullable_mode : Mode → Bool
is_nullable_mode required = false
is_nullable_mode nullable = true
is_nullable_mode repeated = true

unfoldable pub to_column : BqColumn → Converted Column
unfolding to_data_type
to_column self = do
  ty ← to_data_type (bq_data_type self)
  ok (record {
    name = to_portable_name (name self);
    is_nullable = is_nullable_mode (mode self);
    data_type = ty;
    comment = description self;
  })

abbrev is_required : Mode → Bool
is_required required = true
is_required nullable = false
is_required repeated = false

unfoldable pub can_be_merged_on : BqColumn → Bool
can_be_merged_on self = is_required (mode self)

unfoldable pub is_not_null : BqColumn → Bool
is_not_null self = is_required (mode self)

pub data ColumnError : Type 0 where
  names_differ unreachable : ColumnError
  types_differ : AlignError → ColumnError

-- The last match of `aligned_with`: `unreachable` is a panic.
abbrev pub rebuild : BqColumn → Mode → BqDataType → Result ColumnError BqColumn
rebuild self repeated (array nested) =
    ok (column (description self) (name self) (data_type nested) repeated no_columns)
rebuild self repeated (non_array _) = err unreachable
rebuild self nullable (array _) = err unreachable
rebuild self required (array _) = err unreachable
rebuild self nullable (non_array nested) =
    ok (column (description self) (name self) (data_type nested) nullable no_columns)
rebuild self required (non_array nested) =
    ok (column (description self) (name self) (data_type nested) required no_columns)

abbrev pub lift_align : Aligned BqDataType → Result ColumnError BqDataType
lift_align (ok ty) = ok ty
lift_align (err e) = err (types_differ e)

unfoldable pub aligned_with : BqColumn → BqColumn → Result ColumnError BqColumn
aligned_with self other =
    if name_eq (name self) (name other)
    then (lift_align (Align.aligned_with (bq_data_type self) (bq_data_type other)) >>= λ aligned_ty.
        rebuild self (mode self) aligned_ty)
    else err names_differ
