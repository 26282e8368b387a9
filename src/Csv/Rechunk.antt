-- ===== src/Csv/Rechunk.antt =====
-- dbcrossbarlib/src/rechunk.rs: one stream of CSV data as several of about a given size. What the
-- worker writes is read to the end, so that writing does not fail.
pub mod Laws
pub mod Rows
use dbcrossbar.Base.{
  ℕ, ◌+◌, Bool, true, false, Option, none, some, Text, List, [], ◌∷◌, ◌++◌, map, length, codes, ltb,
  leb, Result, ok, err, if◌then◌else◌,
}
use dbcrossbar.Csv.Streams.{Error, Collected, collect}
use dbcrossbar.Csv.Concat.{CsvStream, concatenate_csv_streams}

-- The writer of the `csv` crate, over a `Write`: writing a record gives the writer afterwards and the
-- bytes that it has passed on. Dropping it passes on what is left.
pub record CsvWriter : Type 1 where
  pub ByteRecord : Type 0
  pub Writer : Type 0
  pub with_capacity : ℕ → Writer
  pub write_byte_record : ByteRecord → Writer → Writer × Text
  pub drop_writer : Writer → Text

pub data RechunkError : Type 0 where
  cannot_read : Error → RechunkError
  too_many_chunks : RechunkError

abbrev pub two_to_64 : ℕ
two_to_64 = 18446744073709551616

-- `MAX_CSV_BUFFER_SIZE`.
abbrev pub max_csv_buffer_size : ℕ
max_csv_buffer_size = 8192

-- A chunk, with its number; whether its stream is still to be published; how many bytes the
-- `CountingWriter` has counted; and the bytes that have been passed on.
pub record Chunk (csv : CsvWriter) : Type 0 where
  pub chunk_id : ℕ
  pub wtr : csv.Writer
  pub total_written : ℕ
  pub csv_stream : Bool
  pub sent : Text

-- The streams that were published, as their names and all their bytes, and the error that ended
-- the worker.
abbrev pub Published : Type 0
Published = List (Text × Text) × Option RechunkError

abbrev pub publish_before : List (Text × Text) → Published → Published
publish_before streams (more, end) = (streams ++ more, end)

module _ (csv : CsvWriter) (four_digits : ℕ → Text) (chunk_size : ℕ) where
  abbrev pub chunk_name : ℕ → Text
  chunk_name chunk_id = codes "chunk_" ++ four_digits chunk_id

  -- The `Chunk` that `new_chunk` returns.
  abbrev pub empty_chunk : ℕ → Chunk csv
  empty_chunk chunk_id = record {
    chunk_id = chunk_id;
    wtr =
        csv.with_capacity
          (if leb max_csv_buffer_size chunk_size then max_csv_buffer_size else chunk_size);
    total_written = 0;
    csv_stream = true;
    sent = [];
  }

  -- `new_chunk`: the number is one more than the last, and `checked_add` panics at 2^64.
  unfoldable pub new_chunk : ℕ → Result RechunkError (Chunk csv)
  new_chunk last_id =
      if ltb (last_id + 1) two_to_64 then ok (empty_chunk (last_id + 1)) else err too_many_chunks

  -- `write_byte_record`, through the `CountingWriter`.
  unfoldable pub write_record : csv.ByteRecord → Chunk csv → Chunk csv
  write_record r chunk =
      let (wtr, written) = csv.write_byte_record r chunk.wtr in
      record chunk {
        wtr = wtr;
        total_written = chunk.total_written + length written;
        sent = chunk.sent ++ written;
      }

  -- `chunk.csv_stream.take()`: the first row publishes the stream and writes the headers.
  abbrev pub publish : Bool → csv.ByteRecord → Chunk csv → Chunk csv
  publish true hdr chunk = write_record hdr (record chunk { csv_stream = false })
  publish false hdr chunk = chunk

  -- What is to be read of a chunk that is dropped: nothing, if it was not published.
  abbrev pub dropped_as : Bool → Chunk csv → List (Text × Text)
  dropped_as true chunk = []
  dropped_as false chunk = (chunk_name chunk.chunk_id, chunk.sent ++ csv.drop_writer chunk.wtr) ∷ []

  abbrev pub dropped : Chunk csv → List (Text × Text)
  dropped chunk = dropped_as chunk.csv_stream chunk

  abbrev pub continue_with : Result RechunkError (Chunk csv) → (Chunk csv → Published) → Published
  continue_with (ok chunk) rest = rest chunk
  continue_with (err e) rest = ([], some e)

  -- The loop over the rows.
  unfoldable pub write_rows :
      csv.ByteRecord → Chunk csv → List (Result Error csv.ByteRecord) → Published
  unfolding new_chunk write_record
  write_rows hdr chunk [] = (dropped chunk, none)
  write_rows hdr chunk (err e ∷ rows) = (dropped chunk, some (cannot_read e))
  write_rows hdr chunk (ok row ∷ rows) =
      let written = write_record row (publish chunk.csv_stream hdr chunk) in
      if leb chunk_size written.total_written
      then publish_before (dropped written)
          (continue_with (new_chunk written.chunk_id) λ next. write_rows hdr next rows)
      else write_rows hdr written rows

  -- The worker, on what the reader of the `csv` crate finds: the headers and the rows, or an error.
  unfoldable pub worker :
      Result Error (csv.ByteRecord × List (Result Error csv.ByteRecord)) → Published
  unfolding write_rows new_chunk
  worker (err e) = ([], some (cannot_read e))
  worker (ok (hdr, rows)) = continue_with (new_chunk 0) λ chunk. write_rows hdr chunk rows

  unfoldable pub rechunk_csvs :
      (Collected → Result Error (csv.ByteRecord × List (Result Error csv.ByteRecord)))
      → List (Result Error CsvStream)
      → Published
  unfolding worker collect concatenate_csv_streams
  rechunk_csvs read streams = worker (read (collect (concatenate_csv_streams streams).bytes))
