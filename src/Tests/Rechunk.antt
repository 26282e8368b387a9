-- ===== src/Tests/Rechunk.antt =====
-- Re-chunking at work, with a reader of lines and a writer without a buffer.
use dbcrossbar.Base.{
  ℕ, ◌+◌, ◌==◌, ◌≡◌, refl, arith, none, some, Text, List, [], ◌∷◌, ◌++◌, map, length, codes, Result,
  ok, err, if◌then◌else◌, append-nil,
}
use dbcrossbar.Csv.Streams.{Error, Collected, collect}
use dbcrossbar.Csv.Header.{newline}
use dbcrossbar.Csv.Concat.{CsvStream, concatenate_csv_streams}
use dbcrossbar.Csv.Rechunk.{CsvWriter, rechunk_csvs}
use dbcrossbar.Csv.Rechunk.Laws.{CsvWriterLaws, Chunked}
use dbcrossbar.Csv.Rechunk.Rows.{rechunk_csvs-Chunked}

abbrev line_writer : CsvWriter
line_writer = record {
  ByteRecord = Text;
  Writer = Unit {0};
  with_capacity = λ n. tt;
  write_byte_record = λ r w. (tt, r ++ newline ∷ []);
  drop_writer = λ w. [];
}

abbrev line_writer_laws : CsvWriterLaws line_writer
line_writer_laws = record {
  encode = λ r. r ++ newline ∷ [];
  pending = λ w. [];
  pending-with_capacity = λ n. refl;
  pending-write_byte_record = λ r w. append-nil (r ++ newline ∷ []);
  drop_writer-pending = λ w. refl;
}

abbrev add_to_first : ℕ → List Text → List Text
add_to_first c [] = (c ∷ []) ∷ []
add_to_first c (line ∷ more) = (c ∷ line) ∷ more

abbrev lines : Text → List Text
lines [] = []
lines (c ∷ s) = let rest = lines s in if c == newline then [] ∷ rest else add_to_first c rest

abbrev of_lines : List Text → Text × List (Result Error Text)
of_lines [] = ([], [])
of_lines (hdr ∷ rows) = (hdr, map ok rows)

abbrev read_lines : Collected → Result Error (Text × List (Result Error Text))
read_lines (bytes, none) = ok (of_lines (lines bytes))
read_lines (bytes, some e) = err e

abbrev four_digits : ℕ → Text
four_digits n = codes "000" ++ (b'0' + n) ∷ []

abbrev input : Text → Text → Result Error CsvStream
input first second = ok (record {
  name = codes "input";
  bytes = ok (codes "a,b" ++ newline ∷ first ++ newline ∷ second ++ newline ∷ []) ∷ [];
})

abbrev inputs : List (Result Error CsvStream)
inputs = input (codes "1,1") (codes "2,1") ∷ input (codes "1,2") (codes "2,2") ∷ []

abbrev rows : List Text
rows = codes "1,1" ∷ codes "2,1" ∷ codes "1,2" ∷ codes "2,2" ∷ []

-- The test of the source: each row is a chunk of its own.
rechunk_csvs_honors_chunk_size :
    length (rechunk_csvs line_writer four_digits 7 read_lines inputs).0 ≡ 4
unfolding rechunk_csvs
rechunk_csvs_honors_chunk_size = refl

rechunk_csvs-Chunked_example :
    (out : List (Text × Text)) × (rechunk_csvs line_writer four_digits 7 read_lines inputs
      ≡ (out, none))
    × Chunked line_writer line_writer_laws four_digits 7 (codes "a,b") 1 rows out
unfolding collect concatenate_csv_streams
rechunk_csvs-Chunked_example =
    rechunk_csvs-Chunked line_writer line_writer_laws four_digits 7 read_lines inputs (codes "a,b")
      rows refl (omega arith)
