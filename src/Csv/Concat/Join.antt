-- ===== src/Csv/Concat/Join.antt =====
-- `concatenate_csv_streams` joins the bytes, and one header is kept.
use dbcrossbar.Csv.Header.{newline, quote}
use dbcrossbar.Csv.Header.Laws.{IsLine}
use dbcrossbar.Base.{
  if◌then◌else◌, ◌≡◌, refl, Bool, true, false, none, some, List, Text, [], ◌∷◌, ◌++◌, Result, ok,
  err, append_assoc, concat, any, ◌==◌,
}
use dbcrossbar.Csv.Streams.{
  is_clean, Error, Bytes, Collected, collect, then_collect, collect-append, collect-try_forward,
  try_forward-is_clean, try_forward_to_sender,
}
use dbcrossbar.Csv.Concat.{
  CsvStream, concatenate_from, concatenate_csv_streams, strip_csv_header, send_then,
}
use dbcrossbar.Csv.Concat.Strip.{after_header, after_header-append, collect-strip_csv_header}

-- What is to be read of several streams, whatever their chunks: the first as it is, the others
-- after their headers, up to the first error.
unfoldable pub joined : Bool → List (Result Error CsvStream) → Collected
unfolding collect after_header
joined first [] = ([], none)
joined first (err e ∷ csv_streams) = ([], some e)
joined true (ok csv_stream ∷ csv_streams) =
    then_collect (collect csv_stream.bytes) (joined false csv_streams)
joined false (ok csv_stream ∷ csv_streams) =
    then_collect (after_header (collect csv_stream.bytes)) (joined false csv_streams)

-- What follows an error does not count.
then_collect-if :
    (c : Collected) (rest : Bytes)
    → then_collect c (collect (if is_clean c.1 then rest else [])) ≡ then_collect c (collect rest)
unfolding collect
then_collect-if (s, none) rest = refl
then_collect-if (s, some e) rest = refl

collect-send_then :
    (s rest : Bytes)
    → collect (send_then (try_forward_to_sender s) rest) ≡ then_collect (collect s) (collect rest)
collect-send_then s rest = rw (try_forward-is_clean s) (
    rw (collect-append (try_forward_to_sender s).0 (if is_clean (collect s).1 then rest else []))
      (rw (collect-try_forward s) (then_collect-if (collect s) rest)))

concatenate_from-joined :
    (first : Bool) (csv_streams : List (Result Error CsvStream))
    → collect (concatenate_from first csv_streams) ≡ joined first csv_streams
unfolding concatenate_from joined collect
concatenate_from-joined first [] = refl
concatenate_from-joined first (err e ∷ csv_streams) = refl
concatenate_from-joined true (ok csv_stream ∷ csv_streams) =
    rw (collect-send_then csv_stream.bytes (concatenate_from false csv_streams))
      (rw (concatenate_from-joined false csv_streams))
concatenate_from-joined false (ok csv_stream ∷ csv_streams) =
    rw (collect-send_then (strip_csv_header csv_stream.bytes) (concatenate_from false csv_streams))
      (rw (concatenate_from-joined false csv_streams)
        (rw (collect-strip_csv_header csv_stream.bytes)))

-- What is read of the combined stream, whatever the chunks of the streams: all the bytes of the
-- first, then those of each other behind its first line feed, up to the first error, which is that of
-- a stream, of the stream of streams, or that a stream other than the first has no line feed (unless
-- it has an error of its own) or a quotation mark before it.
pub collect-concatenate_csv_streams :
    (csv_streams : List (Result Error CsvStream))
    → collect (concatenate_csv_streams csv_streams).bytes ≡ joined true csv_streams
unfolding concatenate_csv_streams
collect-concatenate_csv_streams csv_streams = concatenate_from-joined true csv_streams

-- A stream that has arrived without error, with an unquoted header line before its rows.
pub data IsTable : Text → Text → CsvStream → Type 0 where
  is_table :
      {csv_stream : CsvStream} (header rows : Text)
      → IsLine header
      → any (λ b. b == quote) header ≡ false
      → collect csv_stream.bytes ≡ (header ++ newline ∷ rows, none)
      → IsTable header rows csv_stream

pub data AreTables : Text → List Text → List (Result Error CsvStream) → Type 0 where
  no_tables : {header : Text} → AreTables header [] []
  one_more_table :
      {header rows : Text} {more : List Text} {s : CsvStream} {ss : List (Result Error CsvStream)}
      → IsTable header rows s
      → AreTables header more ss
      → AreTables header (rows ∷ more) (ok s ∷ ss)

after_header-IsTable :
    {header rows : Text} {s : CsvStream}
    → IsTable header rows s
    → after_header (collect s.bytes) ≡ (rows, none)
after_header-IsTable (is_table header rows l q e) =
    rw e (rw (after_header-append header rows none l, q) refl)

joined-AreTables :
    {header : Text} {rows : List Text} {ss : List (Result Error CsvStream)}
    → AreTables header rows ss
    → joined false ss ≡ (concat rows, none)
unfolding joined
joined-AreTables no_tables = refl
joined-AreTables (one_more_table t ts) = rw (after_header-IsTable t) (rw (joined-AreTables ts))

-- Tables with one header are combined into a table with that header and the rows of all of them,
-- however their bytes are cut into chunks.
pub concatenate_csv_streams-AreTables :
    {header first : Text} {rows : List Text} {s : CsvStream} {ss : List (Result Error CsvStream)}
    → IsTable header first s
    → AreTables header rows ss
    → collect (concatenate_csv_streams (ok s ∷ ss)).bytes
      ≡ (header ++ newline ∷ (first ++ concat rows), none)
unfolding joined
concatenate_csv_streams-AreTables {s = s} {ss = ss} (is_table header first l q e) ts =
    rw (collect-concatenate_csv_streams (ok s ∷ ss))
      (rw e (rw (joined-AreTables ts) (rw (append_assoc header (newline ∷ first) (concat _)))))
