-- ===== src/Postgres/CsvToBinary/Framing.antt =====
-- dbcrossbarlib/src/drivers/postgres/csv_to_binary: whatever is written for a value is framed by its
-- length.
use dbcrossbar.FromCsvCell.{
  geometry_from_csv_cell, bool_from_csv_cell, i16_from_csv_cell, i32_from_csv_cell,
  i64_from_csv_cell, naive_date_time_from_csv_cell, date_time_from_csv_cell,
}
use dbcrossbar.Postgres.Types.{PgDataType, PgScalarDataType, scalar}
use dbcrossbar.Postgres.CsvToBinary.{
  Crates, CopyError, write, write_read, found, scalar_to_binary, array_to_binary, typed_to_binary,
  looks_like_hex, array, as_array, array_buffer,
}
use dbcrossbar.Base.{
  ℕ, ◌<◌, ◌∷◌, ◌++◌, Option, none, some, length, ok, >>=-eq-ok, ok-injective, ◌≡◌, refl, ap, ◌∙◌,
  sym, arith, Result, err, ◌>>=◌, Text, Bool-cases, ◌==◌, inl, inr,
}
use dbcrossbar.Bytes.{Bytes, be32, i32_of_usize, as_bytes, i32_of_i64}
use dbcrossbar.Bytes.Laws.{i32_of_usize-some}
use dbcrossbar.Postgres.Binary.{
  BinaryError, Value, checked, write_len, write_with_len, ewkb_bytes, write_binary, lifted,
  write_value,
}
use dbcrossbar.Postgres.Binary.ToPostgis.{Ewkb, try_to_postgis}

-- A length that is an `i32`, and as many bytes behind it.
pub record Framed (payload written : Bytes) : Type 0 where
  pub fits : length payload < 2147483648
  pub framed : written ≡ be32 (length payload) ++ payload

abbrev pub IsFramed : Bytes → Type 0
IsFramed written = (payload : Bytes) × Framed payload written

checked-ok : (o : Option ℕ) (e : BinaryError) {n : ℕ} → checked o e ≡ ok n → o ≡ some n
checked-ok (some n) e h = cc
checked-ok none e h = absurd (cc)

write_with_len-Framed :
    (n : ℕ) (bytes : Bytes) {written : Bytes}
    → n ≡ length bytes
    → write_with_len n bytes ≡ ok written
    → Framed bytes written
unfolding write_with_len write_len
write_with_len-Framed n bytes {written} same h =
    let (header, made, joined) = >>=-eq-ok (write_len n) _ h in
    let (m, valid, is_header) =
      >>=-eq-ok (checked (i32_of_usize n) BinaryError.out_of_range) _ made in
    let (equal, small) = i32_of_usize-some n m (checked-ok (i32_of_usize n) _ valid) in
    record {
      fits = rw (← same) small;
      framed =
          sym (ok-injective joined)
          ∙ ap (λ h. h ++ bytes) (sym (ok-injective is_header) ∙ ap be32 (equal ∙ same));
    }

-- Every implementation of `WriteBinary` writes the length that it then keeps to.
pub write_binary-IsFramed :
    (write_ewkb : Ewkb → Bytes) (v : Value) {written : Bytes}
    → write_binary write_ewkb v ≡ ok written
    → IsFramed written
unfolding write_binary
write_binary-IsFramed write_ewkb (Value.bool b) h = (_, write_with_len-Framed 1 _ refl h)
write_binary-IsFramed write_ewkb (Value.naive_date days) h =
    let (day_number, _, made) =
      >>=-eq-ok (checked (i32_of_i64 days) BinaryError.out_of_range) _ h in
    (_, write_with_len-Framed 4 (be32 day_number) refl made)
write_binary-IsFramed write_ewkb (Value.f32 n) h = (_, write_with_len-Framed 4 _ refl h)
write_binary-IsFramed write_ewkb (Value.f64 n) h = (_, write_with_len-Framed 8 _ refl h)
write_binary-IsFramed write_ewkb (Value.geometry_with_srid g srid) h =
    let (buffer, _, made) = >>=-eq-ok (ewkb_bytes (try_to_postgis g srid) write_ewkb) _ h in
    (buffer, write_with_len-Framed (length buffer) buffer refl made)
write_binary-IsFramed write_ewkb (Value.i16 n) h = (_, write_with_len-Framed 2 _ refl h)
write_binary-IsFramed write_ewkb (Value.i32 n) h = (_, write_with_len-Framed 4 _ refl h)
write_binary-IsFramed write_ewkb (Value.i64 n) h = (_, write_with_len-Framed 8 _ refl h)
write_binary-IsFramed write_ewkb (Value.raw_json s) h =
    (_, write_with_len-Framed _ (as_bytes s) refl h)
write_binary-IsFramed write_ewkb (Value.raw_jsonb s) h =
    (_, write_with_len-Framed _ (1 ∷ as_bytes s) (omega arith) h)
write_binary-IsFramed write_ewkb (Value.str s) h = (_, write_with_len-Framed _ (as_bytes s) refl h)
write_binary-IsFramed write_ewkb (Value.bytes bs) h = (bs, write_with_len-Framed _ bs refl h)
write_binary-IsFramed write_ewkb (Value.timestamp microseconds) h =
    let (n, _, made) = >>=-eq-ok (checked microseconds BinaryError.date_math_overflow) _ h in
    (_, write_with_len-Framed 8 _ refl made)
write_binary-IsFramed write_ewkb (Value.uuid bs) h = (bs, write_with_len-Framed _ bs refl h)

lifted-ok :
    (m : Result BinaryError Bytes) {written : Bytes}
    → lifted CopyError.binary m ≡ ok written
    → m ≡ ok written
lifted-ok (ok b) h = cc
lifted-ok (err e) h = absurd (cc)

no_array :
    (n : ℕ) {written : Bytes}
    → ◌≡◌ {A = Result CopyError Bytes} (err (CopyError.dimensions n)) (ok written)
    → ⊥
no_array n h = cc

module _ (k : Crates) where
  write-IsFramed : (v : Value) {written : Bytes} → write k v ≡ ok written → IsFramed written
  unfolding write
  write-IsFramed v h =
      write_binary-IsFramed k.write_ewkb v (lifted-ok (write_binary k.write_ewkb v) h)

  write_read-IsFramed :
      {A : Type 0} (read : Option A) (as_value : A → Value) {written : Bytes}
      → write_read k read as_value ≡ ok written
      → IsFramed written
  unfolding write_read
  write_read-IsFramed (some a) as_value h = write-IsFramed (as_value a) h
  write_read-IsFramed none as_value h = absurd (cc)

  hex-IsFramed :
      (o : Option Bytes) {written : Bytes}
      → (found o CopyError.not_hex >>= λ bytes. write k (Value.bytes bytes)) ≡ ok written
      → IsFramed written
  hex-IsFramed (some bytes) h = write-IsFramed (Value.bytes bytes) h
  hex-IsFramed none h = absurd (cc)

  scalar_to_binary-IsFramed :
      (ty : PgScalarDataType) (cell : Text) {written : Bytes}
      → scalar_to_binary k ty cell ≡ ok written
      → IsFramed written
  unfolding scalar_to_binary
  scalar_to_binary-IsFramed (PgScalarDataType.geometry srid) cell h =
      elim (Bool-cases (looks_like_hex cell)) [
        | inl hex ↦ hex-IsFramed (k.hex_decode cell) (rw hex at h)
        | inr other ↦
            write_read-IsFramed (geometry_from_csv_cell k.parsers cell)
              (λ geometry. Value.geometry_with_srid geometry srid) (rw other at h)
      ]
  scalar_to_binary-IsFramed PgScalarDataType.numeric cell h = absurd (cc)
  scalar_to_binary-IsFramed PgScalarDataType.json cell h = write-IsFramed (Value.raw_json cell) h
  scalar_to_binary-IsFramed PgScalarDataType.jsonb cell h = write-IsFramed (Value.raw_jsonb cell) h
  scalar_to_binary-IsFramed PgScalarDataType.text cell h = write-IsFramed (Value.str cell) h
  scalar_to_binary-IsFramed PgScalarDataType.boolean cell h =
      write_read-IsFramed (bool_from_csv_cell cell) Value.bool h
  scalar_to_binary-IsFramed PgScalarDataType.date cell h =
      write_read-IsFramed (k.parsers.naive_date cell) Value.naive_date h
  scalar_to_binary-IsFramed PgScalarDataType.real cell h =
      write_read-IsFramed (k.parsers.f32 cell) Value.f32 h
  scalar_to_binary-IsFramed PgScalarDataType.double_precision cell h =
      write_read-IsFramed (k.parsers.f64 cell) Value.f64 h
  scalar_to_binary-IsFramed PgScalarDataType.smallint cell h =
      write_read-IsFramed (i16_from_csv_cell cell) Value.i16 h
  scalar_to_binary-IsFramed PgScalarDataType.int cell h =
      write_read-IsFramed (i32_from_csv_cell cell) Value.i32 h
  scalar_to_binary-IsFramed PgScalarDataType.bigint cell h =
      write_read-IsFramed (i64_from_csv_cell cell) Value.i64 h
  scalar_to_binary-IsFramed PgScalarDataType.timestamp_without_time_zone cell h =
      write_read-IsFramed (naive_date_time_from_csv_cell k.parsers cell) Value.timestamp h
  scalar_to_binary-IsFramed PgScalarDataType.timestamp_with_time_zone cell h =
      write_read-IsFramed (date_time_from_csv_cell k.parsers cell) Value.timestamp h
  scalar_to_binary-IsFramed PgScalarDataType.uuid cell h =
      write_read-IsFramed (k.parsers.uuid cell) Value.uuid h

  write_value-IsFramed :
      (m : Result CopyError Bytes) {written : Bytes}
      → write_value CopyError.binary m ≡ ok written
      → IsFramed written
  unfolding write_value
  write_value-IsFramed (ok buffer) h = (
    buffer,
    write_with_len-Framed (length buffer) buffer refl
        (lifted-ok (write_with_len (length buffer) buffer) h),
  )
  write_value-IsFramed (err e) h = absurd (cc)

  array_to_binary-IsFramed :
      (dimension_count : ℕ) (ty : PgScalarDataType) (cell : Text) {written : Bytes}
      → array_to_binary k dimension_count ty cell ≡ ok written
      → IsFramed written
  unfolding array_to_binary
  array_to_binary-IsFramed dimension_count ty cell h = elim (Bool-cases (dimension_count == 1)) [
    | inl one ↦
        let (json, _, parsed) =
          >>=-eq-ok (found (k.json_from_str cell) CopyError.bad_json)
            (λ j. as_array j >>= λ items.
              write_value CopyError.binary (array_buffer k dimension_count ty items))
            (rw one at h) in
        let (items, _, made) = >>=-eq-ok (as_array json) _ parsed in
        write_value-IsFramed (array_buffer k dimension_count ty items) made
    | inr other ↦ absurd (no_array dimension_count (rw other at h))
  ]

  -- What a type makes of a cell is framed, for every type and every cell that it accepts.
  pub typed_to_binary-IsFramed :
      (ty : PgDataType) (cell : Text) {written : Bytes}
      → typed_to_binary k ty cell ≡ ok written
      → IsFramed written
  typed_to_binary-IsFramed (array dimension_count ty) cell h =
      array_to_binary-IsFramed dimension_count ty cell h
  typed_to_binary-IsFramed (scalar ty) cell h = scalar_to_binary-IsFramed ty cell h
