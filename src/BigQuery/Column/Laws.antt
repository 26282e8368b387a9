-- ===== src/BigQuery/Column/Laws.antt =====
-- A column keeps its type through `for_column`, and its shape through `aligned_with`.
use dbcrossbar.BigQuery.Align.{AlignError}
use dbcrossbar.Base.{
  ◌≡◌, refl, ok, err, sym, Bool, true, false, ◌||◌, none, >>=-eq-ok, ok-injective, Bool-cases, inl,
  inr, not, ◌>>=◌, Option, ◌⊎◌, Text, Result-cases,
}
use dbcrossbar.Schema.{Column, DataType}
use dbcrossbar.BigQuery.ColumnName.{ColumnName, to_portable_name, name_eq}
use dbcrossbar.BigQuery.Types.{
  BqDataType, BqNonArrayDataType, array, non_array, Usage, final_table, display,
  BqRecordOrNonArrayDataType, record_type,
}
use dbcrossbar.BigQuery.Convert.{for_data_type, to_data_type}
use dbcrossbar.BigQuery.Convert.RoundTrip.{IsHeld, widen, to_data_type-for_data_type}
use dbcrossbar.BigQuery.Align
use dbcrossbar.BigQuery.Align.Laws.{display-aligned_with}
use dbcrossbar.BigQuery.Column.{
  BqColumn, column, name, mode, with_mode, by_mode, Mode, required, nullable, repeated, for_column,
  bq_data_type, to_column, is_not_null, aligned_with, rebuild, names_differ, no_columns, struct,
  to_struct_fields, BqColumns, types_differ, data_type,
}

-- What `for_column` makes of a BigQuery type has that type, and is `NOT NULL` where the column is,
-- unless it is an array.
abbrev pub is_array : BqDataType → Bool
is_array (array _) = true
is_array (non_array _) = false

pub made : Bool → ColumnName → BqDataType → BqColumn
made is_nullable n t =
    let (ty, m) = with_mode is_nullable t in
    column none n (BqRecordOrNonArrayDataType.data_type ty) m no_columns

-- The portable column that is left, by the BigQuery type and the portable one.
abbrev pub left : Bool → ColumnName → BqDataType → DataType → Column
left is_nullable n t ty = record {
  name = to_portable_name n;
  is_nullable = is_nullable || is_array t;
  data_type = ty;
  comment = none;
}

pub made_lem :
    (is_nullable : Bool) (n : ColumnName) (t : BqDataType)
    → (bq_data_type (made is_nullable n t) ≡ t)
      × (is_not_null (made is_nullable n t) ≡ not (is_nullable || is_array t))
      × (to_column (made is_nullable n t) ≡ (to_data_type t >>= λ ty. ok (left is_nullable n t ty)))
unfolding made bq_data_type is_not_null to_column
made_lem true n (array ty) = (refl, refl, refl)
made_lem false n (array ty) = (refl, refl, refl)
made_lem true n (non_array ty) = (refl, refl, refl)
made_lem false n (non_array ty) = (refl, refl, refl)

pub name-made :
    (is_nullable : Bool) (n : ColumnName) (t : BqDataType) → name (made is_nullable n t) ≡ n
unfolding made
name-made is_nullable n (array ty) = refl
name-made is_nullable n (non_array ty) = refl

pub for_column-made :
    (n : ColumnName) (col : Column) (usage : Usage) {t : BqDataType}
    → for_data_type col.data_type usage ≡ ok t
    → for_column n col usage ≡ ok (made col.is_nullable n t)
unfolding for_column made
for_column-made n col usage e = rw e

-- Of a portable column whose type BigQuery holds, the column of the final table has the name, is
-- `NOT NULL` exactly if the column is not nullable and no array, and comes back as the portable
-- column with its type widened; a nullable column, and an array's, comes back nullable.
pub to_column-for_column :
    (n : ColumnName) (col : Column)
    → IsHeld col.data_type
    → (c : BqColumn) × (for_column n col final_table ≡ ok c)
      × (is_not_null c ≡ not (col.is_nullable || is_array (bq_data_type c)))
      × (to_column c ≡ ok (left col.is_nullable n (bq_data_type c) (widen col.data_type)))
to_column-for_column n col h =
    let (t, there, back) = to_data_type-for_data_type col.data_type h in
    let (same, not_null, portable) = made_lem col.is_nullable n t in
    (
      made col.is_nullable n t,
      for_column-made n col final_table there,
      rw same not_null,
      rw (same, portable, back),
    )

aligned_shape :
    (m : Mode) (inner : BqNonArrayDataType) (t : BqDataType) {ty : BqDataType}
    → Align.aligned_with (by_mode m inner) t ≡ ok ty
    → (inner' : BqNonArrayDataType) × (ty ≡ by_mode m inner')
unfolding Align.aligned_with
aligned_shape repeated inner (array s) e =
    let (x, p, q) = >>=-eq-ok (Align.non_array_aligned_with inner s) _ e in
    (x, sym (ok-injective q))
aligned_shape repeated inner (non_array s) e = cc
aligned_shape nullable inner (array s) e = cc
aligned_shape nullable inner (non_array s) e =
    let (x, p, q) = >>=-eq-ok (Align.non_array_aligned_with inner s) _ e in
    (x, sym (ok-injective q))
aligned_shape required inner (array s) e = cc
aligned_shape required inner (non_array s) e =
    let (x, p, q) = >>=-eq-ok (Align.non_array_aligned_with inner s) _ e in
    (x, sym (ok-injective q))

-- What is rebuilt has the aligned type, the name and the mode; the panics are out of reach.
abbrev Rebuilds : BqColumn → BqDataType → Type 0
Rebuilds self ty =
    (c : BqColumn) × (rebuild self (mode self) ty ≡ ok c)
    × (bq_data_type c ≡ ty)
    × (name c ≡ name self)
    × (mode c ≡ mode self)

rebuild_by_mode :
    (d : Option Text) (n : ColumnName) (r : BqRecordOrNonArrayDataType) (m : Mode) (fs : BqColumns)
    (inner : BqNonArrayDataType)
    → Rebuilds (column d n r m fs) (by_mode m inner)
unfolding bq_data_type
rebuild_by_mode d n r required fs inner = (_, refl, refl, refl, refl)
rebuild_by_mode d n r nullable fs inner = (_, refl, refl, refl, refl)
rebuild_by_mode d n r repeated fs inner = (_, refl, refl, refl, refl)

rebuild_lem :
    (self : BqColumn) (t : BqDataType) {ty : BqDataType}
    → Align.aligned_with (bq_data_type self) t ≡ ok ty
    → Rebuilds self ty
unfolding bq_data_type
rebuild_lem (column d n record_type m fs) t e =
    let (inner, same) = aligned_shape m (struct (to_struct_fields fs)) t e in
    rw same (rebuild_by_mode d n record_type m fs inner)
rebuild_lem (column d n (data_type ty) m fs) t e =
    let (inner, same) = aligned_shape m ty t e in
    rw same (rebuild_by_mode d n (data_type ty) m fs inner)

-- Aligning two columns never panics. It fails where the names differ, and where their types cannot
-- be aligned; else the column has the aligned type, which is displayed as the column's own was, and
-- the column's own name and mode.
pub aligned_with_total :
    (self other : BqColumn)
    → ((name_eq (name self) (name other) ≡ false) × (aligned_with self other ≡ err names_differ))
      ⊎ ((e : AlignError) × (Align.aligned_with (bq_data_type self) (bq_data_type other) ≡ err e)
          × (aligned_with self other ≡ err (types_differ e)))
      ⊎ ((c : BqColumn) × (aligned_with self other ≡ ok c)
          × (Align.aligned_with (bq_data_type self) (bq_data_type other) ≡ ok (bq_data_type c))
          × (display (bq_data_type c) ≡ display (bq_data_type self))
          × (name c ≡ name self)
          × (mode c ≡ mode self))
unfolding aligned_with
aligned_with_total self other = elim (Bool-cases (name_eq (name self) (name other))) [
  | inr differ ↦ inl (differ, rw differ)
  | inl same ↦ elim (Result-cases (Align.aligned_with (bq_data_type self) (bq_data_type other))) [
    | inr (e, failed) ↦ inr (inl (e, failed, rw (same, failed)))
    | inl (ty, aligned) ↦
        let (c, built, typed, named, moded) = rebuild_lem self (bq_data_type other) aligned in
        let shown = (display-aligned_with (bq_data_type self) (bq_data_type other) aligned).0 in
        inr (inr (c, rw (same, aligned) built, rw typed aligned, rw typed shown, named, moded))
  ]
]
