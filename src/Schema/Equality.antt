-- ===== src/Schema/Equality.antt =====
-- The derived `PartialEq` of the portable types.
use dbcrossbar.Base.{Bool, true, false, ◌&&◌, ◌==◌, ◌≡◌, refl, text_eq, text_eq_refl, arith}
use dbcrossbar.Schema.{DataType, StructFields}

abbrev pub bool_eq : Bool → Bool → Bool
bool_eq true b = b
bool_eq false true = false
bool_eq false false = true

unfoldable mutual
  unfolding text_eq

  pub data_type_eq : DataType → DataType → Bool
  data_type_eq (DataType.array s) (DataType.array t) = data_type_eq s t
  data_type_eq DataType.bool DataType.bool = true
  data_type_eq DataType.date DataType.date = true
  data_type_eq DataType.decimal DataType.decimal = true
  data_type_eq DataType.float32 DataType.float32 = true
  data_type_eq DataType.float64 DataType.float64 = true
  data_type_eq (DataType.geo_json a) (DataType.geo_json b) = a.code == b.code
  data_type_eq DataType.int16 DataType.int16 = true
  data_type_eq DataType.int32 DataType.int32 = true
  data_type_eq DataType.int64 DataType.int64 = true
  data_type_eq DataType.json DataType.json = true
  data_type_eq DataType.text DataType.text = true
  data_type_eq (DataType.struct fs) (DataType.struct gs) = fields_eq fs gs
  data_type_eq DataType.timestamp_without_time_zone DataType.timestamp_without_time_zone = true
  data_type_eq DataType.timestamp_with_time_zone DataType.timestamp_with_time_zone = true
  data_type_eq DataType.uuid DataType.uuid = true
  data_type_eq _ _ = false

  pub fields_eq : StructFields → StructFields → Bool
  fields_eq StructFields.nil StructFields.nil = true
  fields_eq (StructFields.field n b t fs) (StructFields.field m c u gs) =
      text_eq n m && (bool_eq b c && (data_type_eq t u && fields_eq fs gs))
  fields_eq _ _ = false

bool_eq_refl : (b : Bool) → bool_eq b b ≡ true
bool_eq_refl true = refl
bool_eq_refl false = refl

mutual
  unfolding data_type_eq

  pub data_type_eq_refl : (t : DataType) → data_type_eq t t ≡ true
  data_type_eq_refl (DataType.array t) = data_type_eq_refl t
  data_type_eq_refl (DataType.geo_json s) = ground arith
  data_type_eq_refl (DataType.struct fs) = fields_eq_refl fs
  data_type_eq_refl _ = refl

  fields_eq_refl : (fs : StructFields) → fields_eq fs fs ≡ true
  fields_eq_refl StructFields.nil = refl
  fields_eq_refl (StructFields.field n b t fs) =
      rw (text_eq_refl n, bool_eq_refl b, data_type_eq_refl t, fields_eq_refl fs)
