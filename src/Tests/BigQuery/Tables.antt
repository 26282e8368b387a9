-- ===== src/Tests/BigQuery/Tables.antt =====
-- BigQuery's columns and tables at work.
use dbcrossbar.Base.{
  text_eq, ◌≡◌, ◌≢◌, refl, ◌↔◌, ◌⊎◌, All, true, false, not, ◌||◌, map, none, List, [], ◌∷◌, codes,
  ok, err,
}
use dbcrossbar.Schema.{DataType, Column}
use dbcrossbar.BigQuery.ColumnName.{as_lowercase, ColumnName, name_eq}
use dbcrossbar.BigQuery.ColumnName.Validity.{of_text}
use dbcrossbar.BigQuery.Types.{
  BqNonArrayDataType, data_type, stringified, display, final_table, csv_load,
}
use dbcrossbar.BigQuery.Convert.{for_non_array, for_data_type}
use dbcrossbar.BigQuery.Convert.RoundTrip.{IsHeld, widen}
use dbcrossbar.BigQuery.Align
use dbcrossbar.BigQuery.Align.{AlignError}
use dbcrossbar.BigQuery.Column as ColumnOps
use dbcrossbar.BigQuery.Column.{
  BqColumn, column, no_columns, nullable, required, name, mode, for_column, to_column, is_not_null,
  bq_data_type, names_differ, types_differ,
}
use dbcrossbar.BigQuery.Column.Laws.{is_array, left, to_column-for_column, aligned_with_total}
use dbcrossbar.BigQuery.Table.{for_table_columns, aligned_with, use_temp}
use dbcrossbar.BigQuery.Table.Names.{AreNew, for_table_columns_iff}
use dbcrossbar.BigQuery.Table.Alignment.{Follows, aligned_with-Follows}
use dbcrossbar.BigQuery.Table.Import.{IsArray, use_temp-IsUnloadable}
use dbcrossbar.BigQuery.Sql.{TableName}
use dbcrossbar.BigQuery.Sql.Merge.{IsMergeKey, write_merge_sql, write_merge_sql-IsMergeKey}

abbrev id : Column
id = record { name = codes "id"; is_nullable = false; data_type = DataType.uuid; comment = none }

abbrev tags : Column
tags = record {
  name = codes "Tags";
  is_nullable = true;
  data_type = DataType.array DataType.text;
  comment = none;
}

abbrev id_name : ColumnName
id_name = of_text (codes "id")

abbrev id_column : BqNonArrayDataType → BqColumn
id_column ty = column none id_name (data_type ty) required no_columns

abbrev as_text : BqColumn
as_text = id_column BqNonArrayDataType.string

abbrev as_uuid : BqColumn
as_uuid = id_column (stringified DataType.uuid)

for_table_columns_iff_example :
    ((bs : List BqColumn) × (for_table_columns (id ∷ tags ∷ []) csv_load ≡ ok bs)
      × (map name bs ≡ map (λ c. of_text c.name) (id ∷ tags ∷ [])))
    ↔ AreNew [] (id ∷ tags ∷ [])
for_table_columns_iff_example = for_table_columns_iff (id ∷ tags ∷ [])

to_column-for_column_example :
    (c : BqColumn) × (for_column id_name id final_table ≡ ok c)
    × (is_not_null c ≡ not (false || is_array (bq_data_type c)))
    × (to_column c ≡ ok (left false id_name (bq_data_type c) (widen DataType.uuid)))
unfolding IsHeld
to_column-for_column_example = to_column-for_column id_name id tt

aligned_with_total_example :
    ((name_eq id_name id_name ≡ false)
      × (ColumnOps.aligned_with as_text as_uuid ≡ err names_differ))
    ⊎ ((e : AlignError) × (Align.aligned_with (bq_data_type as_text) (bq_data_type as_uuid) ≡ err e)
        × (ColumnOps.aligned_with as_text as_uuid ≡ err (types_differ e)))
    ⊎ ((c : BqColumn) × (ColumnOps.aligned_with as_text as_uuid ≡ ok c)
        × (Align.aligned_with (bq_data_type as_text) (bq_data_type as_uuid) ≡ ok (bq_data_type c))
        × (display (bq_data_type c) ≡ display (bq_data_type as_text))
        × (name c ≡ name as_text)
        × (mode c ≡ mode as_text))
aligned_with_total_example = aligned_with_total as_text as_uuid

aligned_with-Follows_example : Follows (as_text ∷ []) (as_uuid ∷ []) (as_uuid ∷ [])
unfolding aligned_with name_eq text_eq as_lowercase ColumnOps.aligned_with Align.aligned_with
    bq_data_type
aligned_with-Follows_example =
    aligned_with-Follows (as_text ∷ []) (as_uuid ∷ []) {bs = as_uuid ∷ []} refl

use_temp-IsUnloadable_example :
    All
      (λ col.
        IsArray col.data_type
        × (for_data_type col.data_type csv_load ≢ for_data_type col.data_type final_table))
      (tags ∷ [])
unfolding use_temp for_non_array
use_temp-IsUnloadable_example = use_temp-IsUnloadable (tags ∷ []) false refl

abbrev table_name : TableName
table_name = record { project = codes "p"; dataset = codes "d"; table = codes "t" }

write_merge_sql-IsMergeKey_example : All (IsMergeKey (as_uuid ∷ [])) (codes "ID" ∷ [])
unfolding write_merge_sql text_eq as_lowercase
write_merge_sql-IsMergeKey_example =
    write_merge_sql-IsMergeKey (λ n. []) table_name (as_uuid ∷ []) table_name (codes "ID" ∷ []) refl
