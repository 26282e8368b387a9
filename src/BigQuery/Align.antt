-- ===== src/BigQuery/Align.antt =====
-- dbcrossbarlib/src/drivers/bigquery_shared/data_type/mod.rs: `aligned_with`, by which a type read
-- from a table takes over what another type says of its strings.
pub mod Laws
use dbcrossbar.Base.{
  ℕ, suc, Bool, true, false, ◌&&◌, ◌==◌, Option, some, none, Result, ok, err, ◌>>=◌, if◌then◌else◌,
}
use dbcrossbar.Schema.Equality.{data_type_eq}
use dbcrossbar.BigQuery.ColumnName.{ColumnName, name_eq}
use dbcrossbar.BigQuery.Types.{
  BqDataType, BqNonArrayDataType, BqFields, array, non_array, bool, bytes, date, datetime, float64,
  geography, int64, numeric, string, stringified, struct, time, timestamp, nil, field,
}

abbrev pub option_name_eq : Option ColumnName → Option ColumnName → Bool
option_name_eq none none = true
option_name_eq (some n) (some m) = name_eq n m
option_name_eq _ _ = false

-- The derived `PartialEq`.
unfoldable mutual
  unfolding data_type_eq name_eq

  pub bq_eq : BqDataType → BqDataType → Bool
  bq_eq (array s) (array t) = non_array_eq s t
  bq_eq (non_array s) (non_array t) = non_array_eq s t
  bq_eq _ _ = false

  pub non_array_eq : BqNonArrayDataType → BqNonArrayDataType → Bool
  non_array_eq bool bool = true
  non_array_eq bytes bytes = true
  non_array_eq date date = true
  non_array_eq datetime datetime = true
  non_array_eq float64 float64 = true
  non_array_eq geography geography = true
  non_array_eq int64 int64 = true
  non_array_eq numeric numeric = true
  non_array_eq string string = true
  non_array_eq (stringified s) (stringified t) = data_type_eq s t
  non_array_eq (struct fs) (struct gs) = bq_fields_eq fs gs
  non_array_eq time time = true
  non_array_eq timestamp timestamp = true
  non_array_eq _ _ = false

  pub bq_fields_eq : BqFields → BqFields → Bool
  bq_fields_eq nil nil = true
  bq_fields_eq (field n t fs) (field m u gs) =
      option_name_eq n m && (bq_eq t u && bq_fields_eq fs gs)
  bq_fields_eq _ _ = false

pub data AlignError : Type 0 where
  cannot_align cannot_align_fields : AlignError

abbrev pub Aligned : Type 0 → Type 0
Aligned A = Result AlignError A

abbrev pub fields_length : BqFields → ℕ
fields_length nil = 0
fields_length (field n t fs) = suc (fields_length fs)

-- The last two arms of the match.
abbrev pub if_equal : BqNonArrayDataType → BqNonArrayDataType → Aligned BqNonArrayDataType
if_equal self other = if non_array_eq self other then ok self else err cannot_align

unfoldable mutual
  unfolding non_array_eq

  pub aligned_with : BqDataType → BqDataType → Aligned BqDataType
  aligned_with (array self_nested) (array other_nested) = do
    nested ← non_array_aligned_with self_nested other_nested
    ok (array nested)
  aligned_with (non_array self_nested) (non_array other_nested) = do
    nested ← non_array_aligned_with self_nested other_nested
    ok (non_array nested)
  aligned_with _ _ = err cannot_align

  pub non_array_aligned_with : BqNonArrayDataType → BqNonArrayDataType → Aligned BqNonArrayDataType
  non_array_aligned_with string (stringified ty) = ok (stringified ty)
  non_array_aligned_with (struct self_fields) (struct other_fields) =
      let aligned = fields_aligned_with self_fields other_fields in
      if fields_length self_fields == fields_length other_fields
      then (aligned >>= λ aligned_fields. ok (struct aligned_fields))
      else err cannot_align
  non_array_aligned_with self other = if_equal self other

  -- The loop over the fields of both, side by side.
  pub fields_aligned_with : BqFields → BqFields → Aligned BqFields
  fields_aligned_with (field self_name self_ty self_fields)
        (field other_name other_ty other_fields) =
      let step = do
        ty ← aligned_with self_ty other_ty
        rest ← fields_aligned_with self_fields other_fields
        ok (field self_name ty rest)
      in if option_name_eq self_name other_name then step else err cannot_align_fields
  fields_aligned_with _ _ = ok nil
