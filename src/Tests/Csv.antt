-- ===== src/Tests/Csv.antt =====
-- The streams of dbcrossbarlib/src/concat.rs at work.
use dbcrossbar.Base.{◌≡◌, refl, none, some, Text, [], ◌∷◌, ◌++◌, codes, ok, err, true}
use dbcrossbar.Csv.Streams.{Bytes, foreign, collect, quoted_headers}
use dbcrossbar.Csv.Header.{csv_header_length, newline}
use dbcrossbar.Csv.Concat.{CsvStream, concatenate_csv_streams}
use dbcrossbar.Csv.Concat.Join.{joined, collect-concatenate_csv_streams}
use dbcrossbar.Csv.Name.{csv_stream_name}
use dbcrossbar.Csv.Name.Laws.{IsNameOf, csv_stream_name-IsNameOf}

abbrev row : Text → Text
row s = s ++ newline ∷ []

-- The header arrives in two chunks.
abbrev chunks : Bytes
chunks = ok (codes "a,") ∷ ok (codes "b" ++ newline ∷ codes "3") ∷ ok (row (codes ",4")) ∷ []

abbrev input_1 : CsvStream
input_1 = record {
  name = codes "input_1";
  bytes = ok (row (codes "a,b") ++ row (codes "1,2")) ∷ [];
}

abbrev input_2 : CsvStream
input_2 = record { name = codes "input_2"; bytes = chunks }

csv_header_length_test : csv_header_length (codes "a,b,c" ++ newline ∷ codes "d,e,f") ≡ ok (some 6)
unfolding csv_header_length
csv_header_length_test = refl

quoted_headers_test : csv_header_length (codes "a,\"" ++ newline ∷ codes "\"") ≡ err quoted_headers
unfolding csv_header_length
quoted_headers_test = refl

-- The test of the source.
concatenate_test :
    collect (concatenate_csv_streams (ok input_1 ∷ ok input_2 ∷ [])).bytes
    ≡ (row (codes "a,b") ++ row (codes "1,2") ++ row (codes "3,4"), none)
unfolding concatenate_csv_streams collect
concatenate_test = refl

collect-concatenate_csv_streams_example :
    collect (concatenate_csv_streams (ok input_1 ∷ ok input_2 ∷ err (foreign []) ∷ [])).bytes
    ≡ joined true (ok input_1 ∷ ok input_2 ∷ err (foreign []) ∷ [])
collect-concatenate_csv_streams_example =
    collect-concatenate_csv_streams (ok input_1 ∷ ok input_2 ∷ err (foreign []) ∷ [])

csv_stream_name_handles_directory_inputs :
    csv_stream_name (codes "dir") (codes "dir/subdir/file2.csv") ≡ ok (codes "subdir/file2")
unfolding csv_stream_name
csv_stream_name_handles_directory_inputs = refl

csv_stream_name-IsNameOf_example :
    IsNameOf (codes "/path/to/file1.csv") (codes "file1") (codes "/path/to/file1.csv")
unfolding csv_stream_name
csv_stream_name-IsNameOf_example =
    csv_stream_name-IsNameOf (codes "/path/to/file1.csv") (codes "/path/to/file1.csv")
      {name = codes "file1"} refl
