-- ===== src/Postgres/Binary.antt =====
-- dbcrossbarlib/src/drivers/postgres/csv_to_binary/write_binary.rs: values in the `BINARY` format of
-- PostgreSQL, and the extensions of `Write` in csv_to_binary/mod.rs.
pub mod ToPostgis
pub mod Coordinates
use dbcrossbar.Base.{
  ℕ, ◌+◌, Bool, true, false, List, [], ◌∷◌, ◌++◌, Option, none, some, Text, Result, ok, err, ◌>>=◌,
  length, if◌then◌else◌,
}
use dbcrossbar.Bytes.{Bytes, be8, be16, be32, be64, as_bytes, i32_of_i64, i32_of_usize}
use dbcrossbar.Schema.{Srid}
use dbcrossbar.Postgres.Binary.ToPostgis.{Geometry, Ewkb, try_to_postgis}

pub data BinaryError : Type 0 where
  out_of_range date_math_overflow bad_srid : BinaryError

abbrev pub checked : Option ℕ → BinaryError → Result BinaryError ℕ
checked (some n) e = ok n
checked none e = err e

-- `WriteExt::write_len`.
unfoldable pub write_len : ℕ → Result BinaryError Bytes
unfolding i32_of_usize
write_len len = checked (i32_of_usize len) out_of_range >>= λ n. ok (be32 n)

-- A length, and the bytes behind it.
unfoldable pub write_with_len : ℕ → Bytes → Result BinaryError Bytes
unfolding write_len
write_with_len len bytes = write_len len >>= λ header. ok (header ++ bytes)

-- What the implementations of `WriteBinary` are for. A date is its days since 2000-01-01 as an `i64`,
-- a timestamp its microseconds since then, if these are an `i64`, and a float is its bits.
pub data Value : Type 0 where
  bool : Bool → Value
  naive_date : ℕ → Value
  f32 f64 i16 i32 i64 : ℕ → Value
  geometry_with_srid : Geometry → Srid → Value
  raw_json raw_jsonb str : Text → Value
  bytes : Bytes → Value
  timestamp : Option ℕ → Value
  uuid : Bytes → Value

abbrev pub ewkb_bytes : Option Ewkb → (Ewkb → Bytes) → Result BinaryError Bytes
ewkb_bytes (some ewkb) write_ewkb = ok (write_ewkb ewkb)
ewkb_bytes none write_ewkb = err bad_srid

-- `write_ewkb` is of the postgis crate.
unfoldable pub write_binary : (Ewkb → Bytes) → Value → Result BinaryError Bytes
unfolding write_with_len i32_of_i64 try_to_postgis as_bytes
write_binary write_ewkb (bool b) = write_with_len 1 (be8 (if b then 1 else 0))
write_binary write_ewkb (naive_date days) =
    checked (i32_of_i64 days) out_of_range >>= λ day_number. write_with_len 4 (be32 day_number)
write_binary write_ewkb (f32 n) = write_with_len 4 (be32 n)
write_binary write_ewkb (f64 n) = write_with_len 8 (be64 n)
write_binary write_ewkb (geometry_with_srid g srid) = do
  buffer ← ewkb_bytes (try_to_postgis g srid) write_ewkb
  write_with_len (length buffer) buffer
write_binary write_ewkb (i16 n) = write_with_len 2 (be16 n)
write_binary write_ewkb (i32 n) = write_with_len 4 (be32 n)
write_binary write_ewkb (i64 n) = write_with_len 8 (be64 n)
write_binary write_ewkb (raw_json s) = write_with_len (length (as_bytes s)) (as_bytes s)
write_binary write_ewkb (raw_jsonb s) =
    write_with_len (1 + length (as_bytes s)) (be8 1 ++ as_bytes s)
write_binary write_ewkb (str s) = write_with_len (length (as_bytes s)) (as_bytes s)
write_binary write_ewkb (bytes bs) = write_with_len (length bs) bs
write_binary write_ewkb (timestamp microseconds) =
    checked microseconds date_math_overflow >>= λ n. write_with_len 8 (be64 n)
write_binary write_ewkb (uuid bs) = write_with_len (length bs) bs

abbrev pub lifted : {E : Type 0} → (BinaryError → E) → Result BinaryError Bytes → Result E Bytes
lifted lift (ok written) = ok written
lifted lift (err e) = err (lift e)

-- `WriteExt::write_value`, on what its function has written into the scratch buffer.
unfoldable pub write_value : {E : Type 0} → (BinaryError → E) → Result E Bytes → Result E Bytes
unfolding write_with_len
write_value lift (err e) = err e
write_value lift (ok buffer) = lifted lift (write_with_len (length buffer) buffer)
