-- ===== src/BigQuery/Convert/CsvLoad.antt =====
-- The types of the tables that CSV files are loaded into.
use dbcrossbar.Base.{◌≡◌, refl, ok, Bool-cases, ◌==◌, inl, inr}
use dbcrossbar.Schema.{DataType}
use dbcrossbar.BigQuery.Types.{BqNonArrayDataType, struct, csv_load, non_array, stringified}
use dbcrossbar.BigQuery.Convert.{for_data_type, for_non_array}

abbrev pub IsScalar : BqNonArrayDataType → Type 0
IsScalar (struct fs) = ⊥
IsScalar _ = Unit

-- For loading from CSV every portable type has a BigQuery type, with no error: it is no array, and
-- no struct.
pub for_data_type-csv_load :
    (ty : DataType)
    → (b : BqNonArrayDataType) × (for_data_type ty csv_load ≡ ok (non_array b)) × IsScalar b
unfolding for_data_type for_non_array
for_data_type-csv_load (DataType.array nested) = (_, refl, tt)
for_data_type-csv_load (DataType.geo_json srid) = elim (Bool-cases (srid.code == 4326)) [
  | inl same ↦ (BqNonArrayDataType.geography, rw same, tt)
  | inr other ↦ (stringified (DataType.geo_json srid), rw other, tt)
]
for_data_type-csv_load _ = (_, refl, tt)
