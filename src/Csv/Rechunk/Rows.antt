-- ===== src/Csv/Rechunk/Rows.antt =====
-- The rows are kept, in order, and every chunk but the last is large enough.
use dbcrossbar.Csv.Concat.{CsvStream, concatenate_csv_streams}
use dbcrossbar.Csv.Streams.{Collected, Error, collect}
use dbcrossbar.Base.{
  subst, ℕ, suc, ◌+◌, ◌≤◌, ◌<◌, ◌≡◌, refl, sym, ap, ◌∙◌, arith, Bool, true, false, none, Text, List,
  [], ◌∷◌, ◌++◌, map, length, length-append, append_assoc, append-nil, leb, lt→ltb, Result, ok,
  if◌then◌else◌, Bool-cases, inl, inr,
}
use dbcrossbar.Csv.Rechunk.{
  worker, RechunkError, CsvWriter, chunk_name, Chunk, write_record, write_rows, new_chunk, dropped,
  two_to_64, publish_before, continue_with, empty_chunk, rechunk_csvs, Published, publish,
}
use dbcrossbar.Csv.Rechunk.Laws.{
  held-write_record, total-write_record, stays_published, write_record-IsOpen, CsvWriterLaws, IsNew,
  IsOpen, encodes, Publishes, Chunked, no_rows, full_chunk, last_chunk,
}

module _ (csv : CsvWriter) (laws : CsvWriterLaws csv) (four_digits : ℕ → Text)
    (chunk_size : ℕ) where
  new_chunk-IsNew :
      (last_id : ℕ)
      → last_id + 1 < two_to_64
      → (chunk : Chunk csv) × (new_chunk csv four_digits chunk_size last_id ≡ ok chunk)
        × IsNew csv laws four_digits chunk_size chunk
        × (chunk.chunk_id ≡ suc last_id)
  unfolding new_chunk
  new_chunk-IsNew last_id h = (
    empty_chunk csv four_digits chunk_size (last_id + 1),
    rw (lt→ltb (last_id + 1) two_to_64 h),
    (refl, refl, laws.pending-with_capacity _, refl),
    omega arith,
  )

  -- What is read of a chunk that is open.
  dropped-IsOpen :
      (hdr : csv.ByteRecord) (rows : List csv.ByteRecord) (chunk : Chunk csv)
      → IsOpen csv laws four_digits chunk_size hdr rows chunk
      → dropped csv four_digits chunk_size chunk
        ≡ (
          chunk_name csv four_digits chunk_size chunk.chunk_id,
          laws.encode hdr ++ encodes csv laws four_digits chunk_size rows,
        )
          ∷ []
  dropped-IsOpen hdr rows chunk (published, held, _) =
      rw published (rw (laws.drop_writer-pending chunk.wtr) (rw held))

  size-IsOpen :
      (hdr : csv.ByteRecord) (rows : List csv.ByteRecord) (chunk : Chunk csv)
      → IsOpen csv laws four_digits chunk_size hdr rows chunk
      → leb chunk_size chunk.total_written ≡ true
      → chunk_size ≤ length (laws.encode hdr ++ encodes csv laws four_digits chunk_size rows)
  size-IsOpen hdr rows chunk (_, held, counted) full =
      let all_held = ap length held in
      let parts = length-append chunk.sent (laws.pending chunk.wtr) in ground arith

  after_row :
      (hdr row : csv.ByteRecord) (rows later : List csv.ByteRecord) (chunk : Chunk csv)
      → IsOpen csv laws four_digits chunk_size hdr (row ∷ rows) chunk
      → chunk.chunk_id + suc (length later) < two_to_64
      → ((next : Chunk csv)
          → IsNew csv laws four_digits chunk_size next
          → next.chunk_id + length later < two_to_64
          → Publishes csv laws four_digits chunk_size hdr next [] later)
      → Publishes csv laws four_digits chunk_size hdr chunk (row ∷ rows) later
      → (streams : List (Text × Text)) × ((if leb chunk_size chunk.total_written
            then publish_before (dropped csv four_digits chunk_size chunk) (
                continue_with csv four_digits chunk_size
                  (new_chunk csv four_digits chunk_size chunk.chunk_id)
                  λ next. write_rows csv four_digits chunk_size hdr next (map ok later))
            else write_rows csv four_digits chunk_size hdr chunk (map ok later))
          ≡ (streams, none))
        × Chunked csv laws four_digits chunk_size hdr chunk.chunk_id ((row ∷ rows) ++ later) streams
  after_row hdr row rows later chunk is_open bound new same =
      elim (Bool-cases (leb chunk_size chunk.total_written)) [
        | inr more ↦ rw more same
        | inl full ↦
            let (next, made, is_new, numbered) = new_chunk-IsNew chunk.chunk_id (omega arith) in
            let (streams, published, chunked) = new next is_new (omega arith) in
            (
              (
                chunk_name csv four_digits chunk_size chunk.chunk_id,
                laws.encode hdr ++ encodes csv laws four_digits chunk_size (row ∷ rows),
              )
                  ∷ streams,
              rw full (rw made (rw published (rw (dropped-IsOpen hdr (row ∷ rows) chunk is_open)))),
              full_chunk row rows (size-IsOpen hdr (row ∷ rows) chunk is_open full)
                  (rw (← numbered) chunked),
            )
      ]

  -- A new chunk that is published, with the headers.
  publish-IsOpen :
      (hdr : csv.ByteRecord) (chunk : Chunk csv)
      → IsNew csv laws four_digits chunk_size chunk
      → IsOpen csv laws four_digits chunk_size hdr []
          (write_record csv four_digits chunk_size hdr (record chunk { csv_stream = false }))
  publish-IsOpen hdr chunk (_, nothing_sent, nothing_pending, nothing_counted) = (
    stays_published csv laws four_digits chunk_size hdr (record chunk { csv_stream = false }) refl,
    held-write_record csv laws four_digits chunk_size hdr (record chunk { csv_stream = false }) []
          (rw nothing_sent (rw nothing_pending))
        ∙ sym (append-nil (laws.encode hdr)),
    total-write_record csv laws four_digits chunk_size hdr (record chunk { csv_stream = false })
        (rw nothing_sent nothing_counted),
  )

  chunk_id-write_record :
      (r : csv.ByteRecord) (chunk : Chunk csv)
      → (write_record csv four_digits chunk_size r chunk).chunk_id ≡ chunk.chunk_id
  unfolding write_record
  chunk_id-write_record r chunk = refl

  -- A round of the loop, by whether the stream is still to be published.
  abbrev written_as :
      csv.ByteRecord
      → csv.ByteRecord
      → List (Result Error csv.ByteRecord)
      → Chunk csv
      → Bool
      → Published
  written_as hdr row rows chunk unpublished =
      let written =
        write_record csv four_digits chunk_size row
          (publish csv four_digits chunk_size unpublished hdr chunk) in
      if leb chunk_size written.total_written
      then publish_before (dropped csv four_digits chunk_size written) (
          continue_with csv four_digits chunk_size
            (new_chunk csv four_digits chunk_size written.chunk_id)
            λ next. write_rows csv four_digits chunk_size hdr next rows)
      else write_rows csv four_digits chunk_size hdr written rows

  mutual
    unfolding write_rows write_record

    new-Publishes :
        (hdr : csv.ByteRecord) (later : List csv.ByteRecord) (chunk : Chunk csv)
        → IsNew csv laws four_digits chunk_size chunk
        → chunk.chunk_id + length later < two_to_64
        → Publishes csv laws four_digits chunk_size hdr chunk [] later
    new-Publishes hdr [] chunk is_new bound = ([], rw is_new.0 refl, no_rows)
    new-Publishes hdr (row ∷ later) chunk is_new bound =
        let start =
          write_record csv four_digits chunk_size hdr (record chunk { csv_stream = false }) in
        let written = write_record csv four_digits chunk_size row start in
        let is_open =
          write_record-IsOpen csv laws four_digits chunk_size hdr [] row start
            (publish-IsOpen hdr chunk is_new) in
        let (streams, published, chunked) =
          after_row hdr row [] later written is_open (omega arith) (new-Publishes hdr later)
            (open-Publishes hdr row [] later written is_open (omega arith)) in
        (streams, ap (written_as hdr row (map ok later) chunk) is_new.0 ∙ published, chunked)

    open-Publishes :
        (hdr row : csv.ByteRecord) (rows later : List csv.ByteRecord) (chunk : Chunk csv)
        → IsOpen csv laws four_digits chunk_size hdr (row ∷ rows) chunk
        → chunk.chunk_id + length later < two_to_64
        → Publishes csv laws four_digits chunk_size hdr chunk (row ∷ rows) later
    open-Publishes hdr row rows [] chunk is_open bound = (
      (
        chunk_name csv four_digits chunk_size chunk.chunk_id,
        laws.encode hdr ++ encodes csv laws four_digits chunk_size (row ∷ rows),
      )
          ∷ [],
      rw (dropped-IsOpen hdr (row ∷ rows) chunk is_open) refl,
      rw (append-nil rows) (last_chunk row rows),
    )
    open-Publishes hdr row rows (r ∷ later) chunk is_open bound =
        let written = write_record csv four_digits chunk_size r chunk in
        let still_open =
          write_record-IsOpen csv laws four_digits chunk_size hdr (row ∷ rows) r chunk is_open in
        let (streams, published, chunked) =
          after_row hdr row (rows ++ r ∷ []) later written still_open (omega arith)
            (new-Publishes hdr later)
            (open-Publishes hdr row (rows ++ r ∷ []) later written still_open (omega arith)) in
        (
          streams,
          ap (written_as hdr r (map ok later) chunk) is_open.0 ∙ published,
          rw (← append_assoc rows (r ∷ []) later) chunked,
        )

  abbrev started :
      csv.ByteRecord → List csv.ByteRecord → Result RechunkError (Chunk csv) → Published
  started hdr rows first =
      continue_with csv four_digits chunk_size first
        λ chunk. write_rows csv four_digits chunk_size hdr chunk (map ok rows)

  -- If the reader finds headers and rows in the bytes of the combined stream, fewer than 2^64 - 1,
  -- then the worker ends without error, and publishes these rows, in order, in chunks numbered from
  -- 1. Each chunk has at least one row and begins with the headers, and each but the last is at least as long as the
  -- chunk size; without rows there is no chunk. The writer is any that passes on what is written.
  pub rechunk_csvs-Chunked :
      (read : Collected → Result Error (csv.ByteRecord × List (Result Error csv.ByteRecord)))
      (streams : List (Result Error CsvStream)) (hdr : csv.ByteRecord) (rows : List csv.ByteRecord)
      → read (collect (concatenate_csv_streams streams).bytes) ≡ ok (hdr, map ok rows)
      → 1 + length rows < two_to_64
      → (out : List (Text × Text)) × (rechunk_csvs csv four_digits chunk_size read streams
          ≡ (out, none))
        × Chunked csv laws four_digits chunk_size hdr 1 rows out
  unfolding rechunk_csvs worker
  rechunk_csvs-Chunked read streams hdr rows found bound =
      let (next, made, is_new, numbered) = new_chunk-IsNew 0 (omega arith) in
      let (out, published, chunked) = new-Publishes hdr rows next is_new (omega arith) in
      (
        out,
        ap (worker csv four_digits chunk_size) found ∙ ap (started hdr rows) made ∙ published,
        subst (λ n. Chunked csv laws four_digits chunk_size hdr n rows out) numbered chunked,
      )
