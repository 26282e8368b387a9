-- ===== src/BigQuery/Export/Laws.antt =====
-- What a portable type comes to can be exported.
use dbcrossbar.Base.{
  ◌==◌, ◌≡◌, refl, subst, true, some, Text, ok, err, ◌>>=◌, >>=-eq-ok, ok-injective, Bool-cases,
  inl, inr,
}
use dbcrossbar.Schema.{DataType, StructFields, Srid, Column}
use dbcrossbar.BigQuery.Types.{
  BqDataType, BqNonArrayDataType, BqFields, array, non_array, struct, field, final_table,
}
use dbcrossbar.BigQuery.Convert.{
  Converted, for_array, for_other, for_non_array, for_fields, name_for,
}
use dbcrossbar.BigQuery.Convert.RoundTrip.{IsElement, AreFields}
use dbcrossbar.BigQuery.JsonSafe.{is_json_safe, is_json_safe_non_array, are_json_safe}
use dbcrossbar.BigQuery.ColumnName.{ColumnName}
use dbcrossbar.BigQuery.Column.{name}
use dbcrossbar.BigQuery.Column.Laws.{made}
use dbcrossbar.BigQuery.Export.{
  never, NeedsCustomJsonExport, max, needs_custom_json_export, non_array_needs_custom_json_export,
  fields_need,
}

-- A type that has an answer, and is safe to be written as JSON.
abbrev pub IsExported : BqNonArrayDataType → Type 0
IsExported b =
    ((needs : NeedsCustomJsonExport) × (non_array_needs_custom_json_export b ≡ ok needs))
    × (is_json_safe_non_array b ≡ true)

abbrev AreExported : BqFields → Type 0
AreExported bs =
    ((acc : NeedsCustomJsonExport)
      → (needs : NeedsCustomJsonExport) × (fields_need acc bs ≡ ok needs))
    × (are_json_safe bs ≡ true)

for_array-eq-ok :
    (nested : DataType) (element : Converted BqNonArrayDataType) {b : BqDataType}
    → for_array nested element ≡ ok b
    → (e : BqNonArrayDataType) × (element ≡ ok e) × (array e ≡ b)
for_array-eq-ok DataType.json element h = cc
for_array-eq-ok _ (ok e) h = (e, refl, ok-injective h)
for_array-eq-ok _ (err x) h = cc

for_other-eq-ok :
    (other : Converted BqNonArrayDataType) {b : BqDataType}
    → for_other other ≡ ok b
    → (e : BqNonArrayDataType) × (other ≡ ok e) × (non_array e ≡ b)
for_other-eq-ok (ok e) h = (e, refl, ok-injective h)
for_other-eq-ok (err x) h = cc

geo_json_IsExported :
    (srid : Srid) {b : BqNonArrayDataType}
    → for_non_array (DataType.geo_json srid) final_table ≡ ok b
    → IsExported b
unfolding for_non_array needs_custom_json_export is_json_safe
geo_json_IsExported srid e = elim (Bool-cases (srid.code == 4326)) [
  | inl same ↦ rw (← ok-injective (rw same at e)) ((_, refl), refl)
  | inr other ↦ rw (← ok-injective (rw other at e)) ((_, refl), refl)
]

plain_IsExported :
    (b : BqNonArrayDataType) {c : BqNonArrayDataType}
    → IsExported b
    → ◌≡◌ {A = Converted BqNonArrayDataType} (ok b) (ok c)
    → IsExported c
plain_IsExported b h e = subst IsExported (ok-injective e) h

-- The same of any type.
abbrev pub TypeIsExported : BqDataType → Type 0
TypeIsExported b =
    ((needs : NeedsCustomJsonExport) × (needs_custom_json_export b ≡ ok needs))
    × (is_json_safe b ≡ true)

field-AreExported :
    (name : Text) (ty : Converted BqDataType) (fields : Converted BqFields) {bs : BqFields}
    → (name_for name >>= λ n. ty >>= λ t. fields >>= λ rest. ok (field (some n) t rest)) ≡ ok bs
    → ((t : BqDataType) → ty ≡ ok t → TypeIsExported t)
    → ((rest : BqFields) → fields ≡ ok rest → AreExported rest)
    → AreExported bs
unfolding needs_custom_json_export is_json_safe
field-AreExported name ty fields e exported all_exported =
    let (n, _, q) = >>=-eq-ok (name_for name) _ e in
    let (t, p, r) = >>=-eq-ok ty _ q in
    let (rest, s, u) = >>=-eq-ok fields _ r in
    let ((needs, answer), safe) = exported t p in
    let (more, all_safe) = all_exported rest s in
    rw (← ok-injective u) ((λ acc. rw answer (more (max acc needs))), rw safe all_safe)

mutual
  unfolding for_non_array IsElement needs_custom_json_export is_json_safe

  element_IsExported :
      (ty : DataType) {b : BqNonArrayDataType}
      → IsElement ty
      → for_non_array ty final_table ≡ ok b
      → IsExported b
  element_IsExported (DataType.array nested) h e = absurd h
  element_IsExported (DataType.geo_json srid) h e = geo_json_IsExported srid e
  element_IsExported (DataType.struct fs) h e =
      let (bs, p, q) = >>=-eq-ok (for_fields fs) _ e in
      let (needs, safe) = fields_AreExported fs h.0 p in rw (← ok-injective q) (needs never, safe)
  element_IsExported _ h e = plain_IsExported _ ((_, refl), refl) e

  fields_AreExported :
      (fs : StructFields) {bs : BqFields} → AreFields fs → for_fields fs ≡ ok bs → AreExported bs
  fields_AreExported StructFields.nil h e = rw (← ok-injective e) ((λ acc. (acc, refl)), refl)
  fields_AreExported (StructFields.field name is_nullable (DataType.array nested) fs) h e =
      field-AreExported name (for_array nested (for_non_array nested final_table)) (for_fields fs) e
        (λ _ made.
          let (b, p, q) = for_array-eq-ok nested (for_non_array nested final_table) made in
          subst TypeIsExported q (element_IsExported nested h.1.1 p))
        (λ _ made. fields_AreExported fs h.2 made)
  fields_AreExported (StructFields.field name is_nullable ty fs) h e =
      field-AreExported name (for_other (for_non_array ty final_table)) (for_fields fs) e
        (λ _ made.
          let (b, p, q) = for_other-eq-ok (for_non_array ty final_table) made in
          subst TypeIsExported q (element_IsExported ty h.1 p))
        (λ _ made. fields_AreExported fs h.2 made)
