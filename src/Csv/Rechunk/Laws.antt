-- ===== src/Csv/Rechunk/Laws.antt =====
-- What is asked of the writer of the `csv` crate, and what a chunk holds.
use dbcrossbar.Base.{
  ℕ, suc, ◌≤◌, ◌≡◌, sym, ap, ◌∙◌, true, false, none, Text, List, [], ◌∷◌, ◌++◌, map, concat, length,
  length-append, append_assoc, append-nil, ok,
}
use dbcrossbar.Csv.Rechunk.{CsvWriter, chunk_name, Chunk, write_record, write_rows}

-- What the documentation of the `csv` crate says of a writer: the records pass through it in order,
-- each in its encoding, and what it still holds is passed on when it is dropped.
pub record CsvWriterLaws (csv : CsvWriter) : Type 0 where
  pub encode : csv.ByteRecord → Text
  pub pending : csv.Writer → Text
  pub pending-with_capacity : (n : ℕ) → pending (csv.with_capacity n) ≡ []
  pub pending-write_byte_record :
      (r : csv.ByteRecord) (w : csv.Writer)
      → (csv.write_byte_record r w).1 ++ pending (csv.write_byte_record r w).0
        ≡ pending w ++ encode r
  pub drop_writer-pending : (w : csv.Writer) → csv.drop_writer w ≡ pending w

module _ (csv : CsvWriter) (laws : CsvWriterLaws csv) (four_digits : ℕ → Text)
    (chunk_size : ℕ) where
  abbrev pub encodes : List csv.ByteRecord → Text
  encodes rows = concat (map laws.encode rows)

  -- The rows in chunks that are numbered from `id`: each has a row and begins with the headers, and
  -- each but the last has the size.
  pub data Chunked (hdr : csv.ByteRecord)
      : ℕ → List csv.ByteRecord → List (Text × Text) → Type 0 where
    no_rows : {id : ℕ} → Chunked hdr id [] []
    last_chunk :
        {id : ℕ} (row : csv.ByteRecord) (rows : List csv.ByteRecord)
        → Chunked hdr id (row ∷ rows) (
            (chunk_name csv four_digits chunk_size id, laws.encode hdr ++ encodes (row ∷ rows))
            ∷ [])
    full_chunk :
        {id : ℕ} (row : csv.ByteRecord) (rows : List csv.ByteRecord) {later : List csv.ByteRecord}
        {streams : List (Text × Text)}
        → chunk_size ≤ length (laws.encode hdr ++ encodes (row ∷ rows))
        → Chunked hdr (suc id) later streams
        → Chunked hdr id ((row ∷ rows) ++ later) (
            (chunk_name csv four_digits chunk_size id, laws.encode hdr ++ encodes (row ∷ rows))
            ∷ streams)

  -- A chunk that is published and holds the headers and these rows.
  abbrev pub IsOpen : csv.ByteRecord → List csv.ByteRecord → Chunk csv → Type 0
  IsOpen hdr rows chunk =
      (chunk.csv_stream ≡ false)
      × (chunk.sent ++ laws.pending chunk.wtr ≡ laws.encode hdr ++ encodes rows)
      × (chunk.total_written ≡ length chunk.sent)

  encodes-snoc :
      (rows : List csv.ByteRecord) (r : csv.ByteRecord)
      → encodes (rows ++ r ∷ []) ≡ encodes rows ++ laws.encode r
  encodes-snoc [] r = append-nil (laws.encode r)
  encodes-snoc (row ∷ rows) r =
      rw (encodes-snoc rows r) (sym (append_assoc (laws.encode row) (encodes rows) (laws.encode r)))

  -- What a record adds to what a chunk holds.
  pub held-write_record :
      (r : csv.ByteRecord) (chunk : Chunk csv) (t : Text)
      → chunk.sent ++ laws.pending chunk.wtr ≡ t
      → (write_record csv four_digits chunk_size r chunk).sent
          ++ laws.pending (write_record csv four_digits chunk_size r chunk).wtr
        ≡ t ++ laws.encode r
  unfolding write_record
  held-write_record r chunk t h =
      append_assoc chunk.sent (csv.write_byte_record r chunk.wtr).1 _
      ∙ ap (λ s. chunk.sent ++ s) (laws.pending-write_byte_record r chunk.wtr)
      ∙ sym (append_assoc chunk.sent (laws.pending chunk.wtr) (laws.encode r))
      ∙ ap (λ s. s ++ laws.encode r) h

  pub total-write_record :
      (r : csv.ByteRecord) (chunk : Chunk csv)
      → chunk.total_written ≡ length chunk.sent
      → (write_record csv four_digits chunk_size r chunk).total_written
        ≡ length (write_record csv four_digits chunk_size r chunk).sent
  unfolding write_record
  total-write_record r chunk h =
      rw h (sym (length-append chunk.sent (csv.write_byte_record r chunk.wtr).1))

  pub stays_published :
      (r : csv.ByteRecord) (chunk : Chunk csv)
      → chunk.csv_stream ≡ false
      → (write_record csv four_digits chunk_size r chunk).csv_stream ≡ false
  unfolding write_record
  stays_published r chunk h = h

  pub write_record-IsOpen :
      (hdr : csv.ByteRecord) (rows : List csv.ByteRecord) (r : csv.ByteRecord) (chunk : Chunk csv)
      → IsOpen hdr rows chunk
      → IsOpen hdr (rows ++ r ∷ []) (write_record csv four_digits chunk_size r chunk)
  write_record-IsOpen hdr rows r chunk (published, held, counted) = (
    stays_published r chunk published,
    held-write_record r chunk _ held
        ∙ append_assoc (laws.encode hdr) (encodes rows) (laws.encode r)
        ∙ ap (λ s. laws.encode hdr ++ s) (sym (encodes-snoc rows r)),
    total-write_record r chunk counted,
  )

  -- A chunk that is new, and holds nothing.
  abbrev pub IsNew : Chunk csv → Type 0
  IsNew chunk =
      (chunk.csv_stream ≡ true)
      × (chunk.sent ≡ [])
      × (laws.pending chunk.wtr ≡ [])
      × (chunk.total_written ≡ 0)

  -- The worker ends without error, and has published these rows.
  abbrev pub Publishes :
      csv.ByteRecord → Chunk csv → List csv.ByteRecord → List csv.ByteRecord → Type 0
  Publishes hdr chunk rows later =
      (streams : List (Text × Text)) × (write_rows csv four_digits chunk_size hdr chunk
          (map ok later)
        ≡ (streams, none))
      × Chunked hdr chunk.chunk_id (rows ++ later) streams
