-- ===== src/BigQuery/Table/Import.antt =====
-- When a table is loaded straight from CSV files.
use dbcrossbar.Base.{
  ◌≡◌, refl, ◌≢◌, Bool, true, false, List, [], ◌∷◌, ok, All, >>=-eq-ok, ok-injective, not, ◌||◌,
  ◌>>=◌, err, if◌then◌else◌,
}
use dbcrossbar.Schema.{DataType, Column}
use dbcrossbar.BigQuery.Types.{csv_load, final_table, non_array, BqNonArrayDataType}
use dbcrossbar.BigQuery.Convert.{
  for_data_type, can_import_from_csv, bq_can_import_from_csv, Converted, for_non_array, for_other,
  for_array,
}
use dbcrossbar.BigQuery.Table.{table_can_import_from_csv, use_temp}

abbrev pub IsArray : DataType → Type 0
IsArray (DataType.array nested) = Unit
IsArray _ = ⊥

other_says_no :
    (r : Converted BqNonArrayDataType)
    → (for_other r >>= λ t. ok (bq_can_import_from_csv t)) ≡ ok true
    → ⊥
other_says_no (ok b) e = cc
other_says_no (err x) e = cc

-- Only an array has an array for its type in the final table.
can_import-IsArray : (ty : DataType) → can_import_from_csv ty ≡ ok true → IsArray ty
unfolding can_import_from_csv for_data_type
can_import-IsArray (DataType.array nested) e = tt
can_import-IsArray ty e = absurd (other_says_no (for_non_array ty final_table) e)

for_array-ne_string :
    (nested : DataType) (r : Converted BqNonArrayDataType)
    → ok (non_array BqNonArrayDataType.string) ≢ for_array nested r
for_array-ne_string DataType.json r = λ e. cc
for_array-ne_string _ (ok b) = λ e. cc
for_array-ne_string _ (err x) = λ e. cc

usages_differ :
    (ty : DataType) → IsArray ty → for_data_type ty csv_load ≢ for_data_type ty final_table
unfolding for_data_type
usages_differ (DataType.array nested) h =
    for_array-ne_string nested (for_non_array nested final_table)
usages_differ _ h = absurd h

answer_yes :
    (b : Bool) (r : Converted Bool)
    → (if b then r else ok false) ≡ ok true
    → (b ≡ true) × (r ≡ ok true)
answer_yes true r e = (refl, e)
answer_yes false r e = cc

no_temp : (can_import is_upsert : Bool) → (not can_import || is_upsert) ≡ false → can_import ≡ true
no_temp true is_upsert e = refl
no_temp false is_upsert e = cc

-- The type for a load is not the type of the final table.
abbrev IsUnloadable : Column → Type 0
IsUnloadable col =
    IsArray col.data_type
    × (for_data_type col.data_type csv_load ≢ for_data_type col.data_type final_table)

table_IsUnloadable :
    (columns : List Column) → table_can_import_from_csv columns ≡ ok true → All IsUnloadable columns
unfolding table_can_import_from_csv
table_IsUnloadable [] e = tt
table_IsUnloadable (col ∷ columns) e =
    let (answer, p, q) = >>=-eq-ok (can_import_from_csv col.data_type) _ e in
    let (said_yes, rest) = answer_yes answer (table_can_import_from_csv columns) q in
    let is_array = can_import-IsArray col.data_type (rw said_yes at p) in
    ((is_array, usages_differ col.data_type is_array), table_IsUnloadable columns rest)

-- A table is loaded without a temporary table only where every column is an array; and for each
-- of these the type that a CSV file can be loaded into differs from the type of the final table,
-- which the load is given.
pub use_temp-IsUnloadable :
    (columns : List Column) (is_upsert : Bool)
    → use_temp columns is_upsert ≡ ok false
    → All
        (λ col.
          IsArray col.data_type
          × (for_data_type col.data_type csv_load ≢ for_data_type col.data_type final_table))
        columns
unfolding use_temp
use_temp-IsUnloadable columns is_upsert e =
    let (can_import, p, q) = >>=-eq-ok (table_can_import_from_csv columns) _ e in
    let said_yes = no_temp can_import is_upsert (ok-injective q) in
    table_IsUnloadable columns (rw said_yes at p)
