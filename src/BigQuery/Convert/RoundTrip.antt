-- ===== src/BigQuery/Convert/RoundTrip.antt =====
-- A portable type, as the type of a column of a final table, and back.
use dbcrossbar.Base.{
  ==_iff, ◌≡◌, refl, ok, Text, List, [], ◌∷◌, none, some, true, Bool, ◌>>=◌, false, Bool-cases,
  ◌==◌, inl, ap, ℕ, sym, ==_iff, inr,
}
use dbcrossbar.Schema.{DataType, StructFields, Srid}
use dbcrossbar.BigQuery.ColumnName.{to_portable_name}
use dbcrossbar.BigQuery.ColumnName.Validity.{IsName, of_text, try_from-of_IsName, as_str-of_text}
use dbcrossbar.BigQuery.Types.{
  BqDataType, BqNonArrayDataType, BqFields, array, non_array, struct, nil, field, final_table,
  stringified,
}
use dbcrossbar.BigQuery.Convert.{
  name_for, for_non_array, for_fields, for_data_type, to_data_type, to_non_array, to_fields,
  find_duplicate, is_one_anonymous,
}

-- The field of a struct is converted as the source says, by `BqDataType::for_data_type`.
pub for_fields-field :
    (name : Text) (is_nullable : Bool) (ty : DataType) (fs : StructFields)
    → for_fields (StructFields.field name is_nullable ty fs) ≡ (
        name_for name >>= λ n.
        for_data_type ty final_table >>= λ t. for_fields fs >>= λ rest. ok (field (some n) t rest))
unfolding for_data_type for_fields
for_fields-field name is_nullable (DataType.array nested) fs = refl
for_fields-field name is_nullable _ fs = refl

-- What is left of a type: floats and integers widen, and every field becomes nullable.
unfoldable mutual
  pub widen : DataType → DataType
  widen (DataType.array nested) = DataType.array (widen nested)
  widen DataType.float32 = DataType.float64
  widen DataType.int16 = DataType.int64
  widen DataType.int32 = DataType.int64
  widen (DataType.struct fields) = DataType.struct (widen_fields fields)
  widen ty = ty

  pub widen_fields : StructFields → StructFields
  widen_fields StructFields.nil = StructFields.nil
  widen_fields (StructFields.field name is_nullable ty fields) =
      StructFields.field name true (widen ty) (widen_fields fields)

abbrev pub NotJson : DataType → Type 0
NotJson DataType.json = ⊥
NotJson _ = Unit

-- The types that BigQuery holds and gives back: no array directly within an array, no array of
-- JSON, and structs whose field names are column names, each met once.
unfoldable mutual
  pub IsElement : DataType → Type 0
  IsElement (DataType.array nested) = ⊥
  IsElement (DataType.struct fields) = AreFields fields × (find_duplicate [] fields ≡ none)
  IsElement _ = Unit

  pub AreFields : StructFields → Type 0
  AreFields StructFields.nil = Unit
  AreFields (StructFields.field name is_nullable (DataType.array nested) fields) =
      IsName name × (NotJson nested × IsElement nested) × AreFields fields
  AreFields (StructFields.field name is_nullable ty fields) =
      IsName name × IsElement ty × AreFields fields

unfoldable pub IsHeld : DataType → Type 0
unfolding IsElement
IsHeld (DataType.array nested) = NotJson nested × IsElement nested
IsHeld ty = IsElement ty

pub AreFields-field :
    (name : Text) (is_nullable : Bool) (ty : DataType) (fs : StructFields)
    → AreFields (StructFields.field name is_nullable ty fs)
    → IsName name × IsHeld ty × AreFields fs
unfolding IsHeld AreFields
AreFields-field name is_nullable (DataType.array nested) fs h = h
AreFields-field name is_nullable DataType.bool fs h = h
AreFields-field name is_nullable _ fs h = h

-- Widening keeps the names, and so whether one is met again.
find_duplicate-widen :
    (names : List Text) (fs : StructFields)
    → find_duplicate names (widen_fields fs) ≡ find_duplicate names fs
unfolding find_duplicate widen_fields
find_duplicate-widen names StructFields.nil = refl
find_duplicate-widen names (StructFields.field name is_nullable ty fs) =
    rw (find_duplicate-widen (name ∷ names) fs)

name_for-IsName : (name : Text) → IsName name → name_for name ≡ ok (of_text name)
name_for-IsName name h = rw (try_from-of_IsName name h)

-- A type goes there and back through `b`.
abbrev GoesBack : DataType → BqDataType → Type 0
GoesBack ty b = (for_data_type ty final_table ≡ ok b) × (to_data_type b ≡ ok (widen ty))

array_GoesBack :
    (nested : DataType) {b : BqNonArrayDataType}
    → NotJson nested
    → for_non_array nested final_table ≡ ok b
    → to_non_array b ≡ ok (widen nested)
    → GoesBack (DataType.array nested) (array b)
unfolding for_data_type to_data_type widen
array_GoesBack DataType.json n p q = absurd n
array_GoesBack _ n p q = (rw p, rw q)

element_GoesBack :
    (ty : DataType) {b : BqNonArrayDataType}
    → IsElement ty
    → for_non_array ty final_table ≡ ok b
    → to_non_array b ≡ ok (widen ty)
    → GoesBack ty (non_array b)
unfolding for_data_type to_data_type IsElement
element_GoesBack (DataType.array nested) h p q = absurd h
element_GoesBack _ h p q = (rw p, q)

-- So do the fields of a struct.
abbrev GoBack : StructFields → BqFields → Type 0
GoBack fs bs = (for_fields fs ≡ ok bs) × (to_fields bs ≡ ok (widen_fields fs))

field-GoBack :
    (name : Text) (is_nullable : Bool) (ty : DataType) (fs : StructFields) {b : BqDataType}
    {bs : BqFields}
    → IsName name
    → GoesBack ty b
    → GoBack fs bs
    → GoBack (StructFields.field name is_nullable ty fs) (field (some (of_text name)) b bs)
unfolding to_fields widen_fields to_portable_name
field-GoBack name is_nullable ty fs h (p, q) (ps, qs) = (
  rw (for_fields-field name is_nullable ty fs) (rw (name_for-IsName name h, p, ps)),
  rw (q, qs, as_str-of_text name),
)

named_fields :
    (bs : BqFields) {fs : StructFields} → to_fields bs ≡ ok fs → is_one_anonymous bs ≡ false
unfolding to_fields
named_fields nil e = refl
named_fields (field none ty nil) e = cc
named_fields (field none ty (field name t fs)) e = refl
named_fields (field (some n) ty nil) e = refl
named_fields (field (some n) ty (field name t fs)) e = refl

geo_json_back :
    (srid : Srid)
    → (b : BqNonArrayDataType) × (for_non_array (DataType.geo_json srid) final_table ≡ ok b)
      × (to_non_array b ≡ ok (DataType.geo_json srid))
unfolding for_non_array to_non_array
geo_json_back srid = elim (Bool-cases (srid.code == 4326)) [
  | inl same ↦ (
    BqNonArrayDataType.geography,
    rw same,
    ap (λ (c : ℕ). ok (DataType.geo_json (record { code = c })))
        (sym ((==_iff srid.code 4326).0 same)),
  )
  | inr other ↦ (stringified (DataType.geo_json srid), rw other, refl)
]

struct_back :
    (fs : StructFields) {bs : BqFields}
    → find_duplicate [] fs ≡ none
    → GoBack fs bs
    → (for_non_array (DataType.struct fs) final_table ≡ ok (struct bs))
      × (to_non_array (struct bs) ≡ ok (widen (DataType.struct fs)))
unfolding for_non_array to_non_array widen
struct_back fs {bs} d (p, q) =
    (rw p, rw (named_fields bs q) (rw q (rw (find_duplicate-widen [] fs) (rw d))))

mutual
  unfolding for_non_array to_data_type widen IsElement

  element_back :
      (ty : DataType)
      → IsElement ty
      → (b : BqNonArrayDataType) × (for_non_array ty final_table ≡ ok b)
        × (to_non_array b ≡ ok (widen ty))
  element_back (DataType.array nested) h = absurd h
  element_back (DataType.struct fields) h =
      let (bs, p, q) = fields_back fields h.0 in
      let (there, back) = struct_back fields h.1 (p, q) in (struct bs, there, back)
  element_back (DataType.geo_json srid) h = geo_json_back srid
  element_back _ h = (_, refl, refl)

  fields_back :
      (fs : StructFields)
      → AreFields fs
      → (bs : BqFields) × (for_fields fs ≡ ok bs) × (to_fields bs ≡ ok (widen_fields fs))
  fields_back StructFields.nil h = (nil, refl, refl)
  fields_back (StructFields.field name is_nullable (DataType.array nested) fs) h =
      let (b, p, q) = element_back nested h.1.1 in
      let (bs, ps, qs) = fields_back fs h.2 in
      let (there, back) =
        field-GoBack name is_nullable (DataType.array nested) fs h.0
          (array_GoesBack nested h.1.0 p q) (ps, qs) in
      (_, there, back)
  fields_back (StructFields.field name is_nullable ty fs) h =
      let (b, p, q) = element_back ty h.1 in
      let (bs, ps, qs) = fields_back fs h.2 in
      let (there, back) =
        field-GoBack name is_nullable ty fs h.0 (element_GoesBack ty h.1 p q) (ps, qs) in
      (_, there, back)

-- A portable type without an array directly within an array, without arrays of JSON, and whose
-- structs have column names that differ for their fields, goes to a BigQuery type of the final table
-- and comes back, with integers and floats at their widest and the fields of structs nullable.
pub to_data_type-for_data_type :
    (ty : DataType)
    → IsHeld ty
    → (b : BqDataType) × (for_data_type ty final_table ≡ ok b) × (to_data_type b ≡ ok (widen ty))
unfolding IsHeld
to_data_type-for_data_type (DataType.array nested) h =
    let (b, p, q) = element_back nested h.1 in
    let (there, back) = array_GoesBack nested h.0 p q in (array b, there, back)
to_data_type-for_data_type ty h =
    let (b, p, q) = element_back ty h in
    let (there, back) = element_GoesBack ty h p q in (non_array b, there, back)
