-- ===== src/Postgres/CsvToBinary.antt =====
-- dbcrossbarlib/src/drivers/postgres/csv_to_binary/mod.rs: CSV data in the `FORMAT BINARY` of COPY.
pub mod Copy
pub mod Framing
pub mod Reader
use dbcrossbar.Base.{
  ℕ, ◌+◌, ◌==◌, Bool, true, false, not, ◌&&◌, ◌||◌, leb, List, [], ◌∷◌, ◌++◌, Option, none, some,
  Text, codes, text_eq, length, Result, ok, err, ◌>>=◌, if◌then◌else◌,
}
use dbcrossbar.Bytes.{Bytes, be16, be32, i16_of_usize, i32_of_usize}
use dbcrossbar.FromCsvCell.{
  Parsers, bool_from_csv_cell, i16_from_csv_cell, i32_from_csv_cell, i64_from_csv_cell,
  geometry_from_csv_cell, naive_date_time_from_csv_cell, date_time_from_csv_cell,
}
use dbcrossbar.FromJsonValue.{
  Json, Items, from_json_value, bool_from_json_value, f32_from_json_value, f64_from_json_value,
  i16_from_json_value, i32_from_json_value, i64_from_json_value,
}
use dbcrossbar.Postgres.Types.{PgDataType, PgScalarDataType, array, scalar, oid}
use dbcrossbar.Postgres.Column.{PgColumn}
use dbcrossbar.Postgres.Binary.{BinaryError, Value, write_binary, write_value, lifted}
use dbcrossbar.Postgres.Binary.ToPostgis.{Ewkb}

pub data CopyError : Type 0 where
  bad_csv too_many_fields bad_cell no_numeric no_json not_hex bad_json not_array no_oid : CopyError
  column_count : ℕ → ℕ → CopyError
  column_name : Text → ℕ → Text → CopyError
  dimensions : ℕ → CopyError
  binary : BinaryError → CopyError

-- The crates that the code calls.
pub record Crates : Type 0 where
  pub parsers : Parsers
  pub write_ewkb : Ewkb → Bytes
  pub hex_decode : Text → Option Bytes
  pub json_from_str : Text → Option Json
  pub json_to_string : Json → Text
  pub cast_f32 : ℕ → Option ℕ

abbrev pub found {ℓ} : {A : Type ℓ} → Option A → CopyError → Result CopyError A
found (some a) e = ok a
found none e = err e

abbrev pub is_ascii_hexdigit : ℕ → Bool
is_ascii_hexdigit c = (leb 48 c && leb c 57) || ((leb 65 c && leb c 70) || (leb 97 c && leb c 102))

abbrev pub looks_like_hex : Text → Bool
looks_like_hex [] = false
looks_like_hex (c ∷ _) = is_ascii_hexdigit c

-- The 32 bits of -1, which stand for a null where a length does for a value.
abbrev pub null_field : Bytes
null_field = be32 4294967295

abbrev pub of_oid : {E : Type 0} → Result E ℕ → Result CopyError ℕ
of_oid (ok n) = ok n
of_oid (err _) = err no_oid

unfoldable pub items_len : Items → ℕ
items_len Items.nil = 0
items_len (Items.item _ items) = 1 + items_len items

abbrev pub as_array : Json → Result CopyError Items
as_array (Json.array items) = ok items
as_array _ = err not_array

abbrev pub is_empty : Text → Bool
is_empty [] = true
is_empty (_ ∷ _) = false

module _ (k : Crates) where
  unfoldable pub write : Value → Result CopyError Bytes
  unfolding write_binary
  write v = lifted binary (write_binary k.write_ewkb v)

  -- `write_cell_as_binary` and `write_json_as_binary`, on what the cell or the JSON is read as.
  unfoldable pub write_read : {A : Type 0} → Option A → (A → Value) → Result CopyError Bytes
  unfolding write
  write_read read as_value = found read bad_cell >>= λ a. write (as_value a)

  unfoldable pub scalar_to_binary : PgScalarDataType → Text → Result CopyError Bytes
  unfolding write_read bool_from_csv_cell i16_from_csv_cell i32_from_csv_cell i64_from_csv_cell
      geometry_from_csv_cell naive_date_time_from_csv_cell date_time_from_csv_cell
  scalar_to_binary PgScalarDataType.boolean cell = write_read (bool_from_csv_cell cell) Value.bool
  scalar_to_binary PgScalarDataType.date cell =
      write_read (k.parsers.naive_date cell) Value.naive_date
  scalar_to_binary PgScalarDataType.numeric cell = err no_numeric
  scalar_to_binary PgScalarDataType.real cell = write_read (k.parsers.f32 cell) Value.f32
  scalar_to_binary PgScalarDataType.double_precision cell =
      write_read (k.parsers.f64 cell) Value.f64
  scalar_to_binary (PgScalarDataType.geometry srid) cell =
      if looks_like_hex cell
      then (found (k.hex_decode cell) not_hex >>= λ bytes. write (Value.bytes bytes))
      else write_read (geometry_from_csv_cell k.parsers cell)
          (λ geometry. Value.geometry_with_srid geometry srid)
  scalar_to_binary PgScalarDataType.smallint cell = write_read (i16_from_csv_cell cell) Value.i16
  scalar_to_binary PgScalarDataType.int cell = write_read (i32_from_csv_cell cell) Value.i32
  scalar_to_binary PgScalarDataType.bigint cell = write_read (i64_from_csv_cell cell) Value.i64
  scalar_to_binary PgScalarDataType.json cell = write (Value.raw_json cell)
  scalar_to_binary PgScalarDataType.jsonb cell = write (Value.raw_jsonb cell)
  scalar_to_binary PgScalarDataType.text cell = write (Value.str cell)
  scalar_to_binary PgScalarDataType.timestamp_without_time_zone cell =
      write_read (naive_date_time_from_csv_cell k.parsers cell) Value.timestamp
  scalar_to_binary PgScalarDataType.timestamp_with_time_zone cell =
      write_read (date_time_from_csv_cell k.parsers cell) Value.timestamp
  scalar_to_binary PgScalarDataType.uuid cell = write_read (k.parsers.uuid cell) Value.uuid

  abbrev pub string_to_binary : Json → Result CopyError Bytes
  string_to_binary (Json.string s) = write (Value.str s)
  string_to_binary _ = err bad_json

  unfoldable pub json_to_binary : PgScalarDataType → Json → Result CopyError Bytes
  unfolding write_read from_json_value bool_from_json_value f32_from_json_value f64_from_json_value
      i16_from_json_value i32_from_json_value i64_from_json_value geometry_from_csv_cell
      naive_date_time_from_csv_cell date_time_from_csv_cell
  json_to_binary PgScalarDataType.boolean json = write_read (bool_from_json_value json) Value.bool
  json_to_binary PgScalarDataType.date json =
      write_read (from_json_value k.parsers.naive_date json) Value.naive_date
  json_to_binary PgScalarDataType.numeric json = err no_numeric
  json_to_binary PgScalarDataType.real json =
      write_read (f32_from_json_value k.parsers k.cast_f32 json) Value.f32
  json_to_binary PgScalarDataType.double_precision json =
      write_read (f64_from_json_value k.parsers json) Value.f64
  json_to_binary (PgScalarDataType.geometry srid) json =
      write_read (from_json_value (geometry_from_csv_cell k.parsers) json)
        (λ geometry. Value.geometry_with_srid geometry srid)
  json_to_binary PgScalarDataType.smallint json = write_read (i16_from_json_value json) Value.i16
  json_to_binary PgScalarDataType.int json = write_read (i32_from_json_value json) Value.i32
  json_to_binary PgScalarDataType.bigint json = write_read (i64_from_json_value json) Value.i64
  json_to_binary PgScalarDataType.json json = err no_json
  json_to_binary PgScalarDataType.jsonb json = write (Value.raw_jsonb (k.json_to_string json))
  json_to_binary PgScalarDataType.text json = string_to_binary json
  json_to_binary PgScalarDataType.timestamp_without_time_zone json =
      write_read (from_json_value (naive_date_time_from_csv_cell k.parsers) json) Value.timestamp
  json_to_binary PgScalarDataType.timestamp_with_time_zone json =
      write_read (from_json_value (date_time_from_csv_cell k.parsers) json) Value.timestamp
  json_to_binary PgScalarDataType.uuid json =
      write_read (from_json_value k.parsers.uuid json) Value.uuid

  unfoldable pub element_to_binary : PgScalarDataType → Json → Result CopyError Bytes
  unfolding json_to_binary
  element_to_binary ty Json.null = ok null_field
  element_to_binary ty other = json_to_binary ty other

  unfoldable pub elements_to_binary : PgScalarDataType → Items → Result CopyError Bytes
  unfolding element_to_binary
  elements_to_binary ty Items.nil = ok []
  elements_to_binary ty (Items.item elem items) = do
    here ← element_to_binary ty elem
    rest ← elements_to_binary ty items
    ok (here ++ rest)

  -- What is written into the scratch buffer: dimensions, nulls, element type, size, lower bound.
  unfoldable pub array_buffer : ℕ → PgScalarDataType → Items → Result CopyError Bytes
  unfolding oid items_len i32_of_usize elements_to_binary
  array_buffer dimension_count ty json_array = do
    type_oid ← of_oid (oid ty)
    size ← found (i32_of_usize (items_len json_array)) (binary BinaryError.out_of_range)
    elements ← elements_to_binary ty json_array
    ok (be32 dimension_count ++ (be32 1 ++ (be32 type_oid ++ (be32 size ++ (be32 1 ++ elements)))))

  unfoldable pub array_to_binary : ℕ → PgScalarDataType → Text → Result CopyError Bytes
  unfolding array_buffer write_value
  array_to_binary dimension_count ty cell =
      if dimension_count == 1
      then (found (k.json_from_str cell) bad_json >>= λ json. as_array json >>= λ json_array.
          write_value binary (array_buffer dimension_count ty json_array))
      else err (dimensions dimension_count)

  abbrev pub typed_to_binary : PgDataType → Text → Result CopyError Bytes
  typed_to_binary (array dimension_count ty) cell = array_to_binary dimension_count ty cell
  typed_to_binary (scalar ty) cell = scalar_to_binary ty cell

  unfoldable pub cell_to_binary : PgColumn → Text → Result CopyError Bytes
  unfolding array_to_binary scalar_to_binary
  cell_to_binary col cell =
      if is_empty cell && col.is_nullable then ok null_field else typed_to_binary col.data_type cell

  -- `row.iter().zip(table.columns.iter())`.
  unfoldable pub cells_to_binary : List PgColumn → List Text → Result CopyError Bytes
  unfolding cell_to_binary
  cells_to_binary [] row = ok []
  cells_to_binary (col ∷ cols) [] = ok []
  cells_to_binary (col ∷ cols) (cell ∷ row) = do
    here ← cell_to_binary col cell
    rest ← cells_to_binary cols row
    ok (here ++ rest)

  unfoldable pub row_to_binary : List PgColumn → List Text → Result CopyError Bytes
  unfolding i16_of_usize cells_to_binary
  row_to_binary cols row = do
    count ← found (i16_of_usize (length row)) too_many_fields
    cells ← cells_to_binary cols row
    ok (be16 count ++ cells)

  -- The records of the reader of the csv crate, each a row or an error.
  unfoldable pub rows_to_binary : List PgColumn → List (Option (List Text)) → Result CopyError Bytes
  unfolding row_to_binary
  rows_to_binary cols [] = ok []
  rows_to_binary cols (record_read ∷ records) = do
    row ← found record_read bad_csv
    here ← row_to_binary cols row
    rest ← rows_to_binary cols records
    ok (here ++ rest)

-- `PGCOPY\n`, the byte 255, CR, LF and a zero; then the flags and the length of the extension.
abbrev pub signature : Bytes
signature = codes "PGCOPY\n" ++ (255 ∷ 13 ∷ 10 ∷ 0 ∷ [])

abbrev pub file_header : Bytes
file_header = signature ++ (be32 0 ++ be32 0)

unfoldable pub check_names : ℕ → List Text → List PgColumn → Result CopyError (Unit {0})
unfolding text_eq
check_names idx [] cols = ok tt
check_names idx (hdr ∷ headers) [] = ok tt
check_names idx (hdr ∷ headers) (col ∷ cols) =
    let rest = check_names (idx + 1) headers cols in
    if text_eq hdr col.name then rest else err (column_name hdr idx col.name)

unfoldable pub check_headers : List Text → List PgColumn → Result CopyError (Unit {0})
unfolding check_names
check_headers headers cols =
    if length headers == length cols
    then check_names 0 headers cols
    else err (column_count (length headers) (length cols))

unfoldable pub copy_csv_to_pg_binary :
    Crates → List PgColumn → Option (List Text) → List (Option (List Text)) → Result CopyError Bytes
unfolding check_headers rows_to_binary
copy_csv_to_pg_binary k cols headers_read records = do
  headers ← found headers_read bad_csv
  _ ← check_headers headers cols
  rows ← rows_to_binary k cols records
  ok (file_header ++ rows)
