-- ===== src/BigQuery/Align/Laws.antt =====
-- What alignment keeps of the type that is aligned.
use dbcrossbar.BigQuery.ColumnName.Comparison.{name_eq_refl}
use dbcrossbar.BigQuery.ColumnName.{ColumnName}
use dbcrossbar.Schema.Equality.{data_type_eq_refl}
use dbcrossbar.Base.{
  ◌≡◌, refl, ap, ok, ◌∙◌, sym, >>=-eq-ok, arith, ok-injective, Option, if-eq-ok, ==_iff, ◌==◌, true,
  ap₂, some, codes, none,
}
use dbcrossbar.Separator
use dbcrossbar.Separator.{Separator}
use dbcrossbar.BigQuery.Types.{
  BqDataType, BqNonArrayDataType, BqFields, array, non_array, struct, nil, field, display,
  display_non_array, display_fields,
}
use dbcrossbar.BigQuery.Grammar.RoundTrip.{erase, erase_non_array, erase_fields}
use dbcrossbar.BigQuery.Align.{
  if_equal, aligned_with, non_array_aligned_with, fields_aligned_with, non_array_eq, fields_length,
  cannot_align, option_name_eq, cannot_align_fields,
}

if_equal-eq-ok : (a b : BqNonArrayDataType) {c : BqNonArrayDataType} → if_equal a b ≡ ok c → a ≡ c
if_equal-eq-ok a b e = ok-injective (if-eq-ok (non_array_eq a b) (ok a) cannot_align e).1

mutual
  unfolding aligned_with erase

  erase-aligned_with :
      (a b : BqDataType) {c : BqDataType} → aligned_with a b ≡ ok c → erase c ≡ erase a
  erase-aligned_with (array a) (array b) e =
      let (n, p, q) = >>=-eq-ok (non_array_aligned_with a b) _ e in
      rw (← ok-injective q) (ap array (erase-non_array_aligned_with a b p))
  erase-aligned_with (non_array a) (non_array b) e =
      let (n, p, q) = >>=-eq-ok (non_array_aligned_with a b) _ e in
      rw (← ok-injective q) (ap non_array (erase-non_array_aligned_with a b p))
  erase-aligned_with _ _ e = cc

  erase-non_array_aligned_with :
      (a b : BqNonArrayDataType) {c : BqNonArrayDataType}
      → non_array_aligned_with a b ≡ ok c
      → erase_non_array c ≡ erase_non_array a
  erase-non_array_aligned_with BqNonArrayDataType.string (BqNonArrayDataType.stringified ty) e =
      rw (← ok-injective e)
  erase-non_array_aligned_with (struct fs) (struct gs) e =
      let (same, run) = if-eq-ok (fields_length fs == fields_length gs) _ cannot_align e in
      let (hs, p, q) = >>=-eq-ok (fields_aligned_with fs gs) _ run in
      rw (← ok-injective q) (ap struct (erase-fields_aligned_with fs gs ((==_iff _ _).0 same) p))
  erase-non_array_aligned_with a b e = ap erase_non_array (sym (if_equal-eq-ok a b e))

  erase-fields_aligned_with :
      (fs gs : BqFields) {hs : BqFields}
      → fields_length fs ≡ fields_length gs
      → fields_aligned_with fs gs ≡ ok hs
      → erase_fields hs ≡ erase_fields fs
  erase-fields_aligned_with nil gs l e = rw (← ok-injective e)
  erase-fields_aligned_with (field n t fs) nil l e = absurd (omega arith)
  erase-fields_aligned_with (field n t fs) (field m u gs) l e =
      let (same, run) = if-eq-ok (option_name_eq n m) _ cannot_align_fields e in
      let (t', p, run') = >>=-eq-ok (aligned_with t u) _ run in
      let (hs', p', q) = >>=-eq-ok (fields_aligned_with fs gs) _ run' in
      rw (← ok-injective q) (
        ap₂ (field n) (erase-aligned_with t u p) (erase-fields_aligned_with fs gs (omega arith) p'))

-- The text of a type is the text of what the text says of it.
mutual
  unfolding display erase

  display-erase : (ty : BqDataType) → display (erase ty) ≡ display ty
  display-erase (array ty) = rw (display_non_array-erase ty)
  display-erase (non_array ty) = display_non_array-erase ty

  display_non_array-erase :
      (ty : BqNonArrayDataType) → display_non_array (erase_non_array ty) ≡ display_non_array ty
  display_non_array-erase (struct fs) = rw (display_fields-erase fs (Separator.new (codes ",")))
  display_non_array-erase BqNonArrayDataType.bool = refl
  display_non_array-erase _ = refl

  display_fields-erase :
      (fs : BqFields) (sep : Separator)
      → display_fields (erase_fields fs) sep ≡ display_fields fs sep
  display_fields-erase nil sep = refl
  display_fields-erase (field n t fs) sep =
      rw (display-erase t, display_fields-erase fs (Separator.display sep).0)

-- A type that was aligned is displayed as it was before, and differs from what it was only in what
-- its strings are known to hold.
pub display-aligned_with :
    (a b : BqDataType) {c : BqDataType}
    → aligned_with a b ≡ ok c
    → (display c ≡ display a) × (erase c ≡ erase a)
display-aligned_with a b {c} e =
    let kept = erase-aligned_with a b e in
    (sym (display-erase c) ∙ ap display kept ∙ display-erase a, kept)

option_name_eq_refl : (n : Option ColumnName) → option_name_eq n n ≡ true
option_name_eq_refl none = refl
option_name_eq_refl (some n) = name_eq_refl n

mutual
  unfolding aligned_with

  aligned_with_refl : (a : BqDataType) → aligned_with a a ≡ ok a
  aligned_with_refl (array a) = rw (non_array_aligned_with_refl a)
  aligned_with_refl (non_array a) = rw (non_array_aligned_with_refl a)

  non_array_aligned_with_refl : (a : BqNonArrayDataType) → non_array_aligned_with a a ≡ ok a
  non_array_aligned_with_refl (BqNonArrayDataType.stringified t) = rw (data_type_eq_refl t)
  non_array_aligned_with_refl (struct fs) =
      rw ((==_iff (fields_length fs) _).1 refl, fields_aligned_with_refl fs)
  non_array_aligned_with_refl _ = refl

  fields_aligned_with_refl : (fs : BqFields) → fields_aligned_with fs fs ≡ ok fs
  fields_aligned_with_refl nil = refl
  fields_aligned_with_refl (field n t fs) =
      rw (option_name_eq_refl n, aligned_with_refl t, fields_aligned_with_refl fs)

-- A type is aligned with itself, and is unchanged by it.
pub aligned_with_self : (a : BqDataType) → aligned_with a a ≡ ok a
aligned_with_self = aligned_with_refl
