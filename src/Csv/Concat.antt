-- ===== src/Csv/Concat.antt =====
-- dbcrossbarlib/src/concat.rs: the streams of CSV data, as one stream with the first header. A
-- worker is the list of the items that it sends.
pub mod Strip
pub mod Join
use dbcrossbar.Base.{
  Bool, true, false, Option, none, some, Text, List, [], ◌∷◌, ◌++◌, drop, Result, ok, err,
  if◌then◌else◌, codes, ℕ,
}
use dbcrossbar.Csv.Streams.{
  Error, Bytes, end_of_headers, foreign, quoted_headers, try_forward_to_sender,
}
use dbcrossbar.Csv.Header.{csv_header_length}

pub record CsvStream : Type 0 where
  pub name : Text
  pub bytes : Bytes

-- `send_err`.
abbrev pub send_err : Error → Bytes
send_err e = err e ∷ []

-- The bytes that wait for the end of the headers.
abbrev pub extend : Option Text → Text → Text
extend none bytes = bytes
extend (some buffer) bytes = buffer ++ bytes

-- What the worker does when it has looked for the headers in `new_buffer`.
abbrev pub after_search : Result Error (Option ℕ) → Text → Bytes → Bytes → Bytes
after_search (ok (some header_len)) new_buffer stream looking =
    ok (drop header_len new_buffer) ∷ (try_forward_to_sender stream).0
after_search (ok none) new_buffer stream looking = looking
after_search (err e) new_buffer stream looking = send_err e

-- The loop of `strip_csv_header`, over its buffer.
unfoldable pub strip_from : Option Text → Bytes → Bytes
unfolding csv_header_length try_forward_to_sender
strip_from buffer [] = send_err end_of_headers
strip_from buffer (err e ∷ stream) = send_err e
strip_from buffer (ok bytes ∷ stream) =
    let new_buffer = extend buffer bytes in
    after_search (csv_header_length new_buffer) new_buffer stream
      (strip_from (some new_buffer) stream)

unfoldable pub strip_csv_header : Bytes → Bytes
unfolding strip_from
strip_csv_header stream = strip_from none stream

-- What is sent of one stream, and then the rest if all of it was sent.
abbrev pub send_then : Bytes × Bool → Bytes → Bytes
send_then (sent, all_sent) rest = sent ++ (if all_sent then rest else [])

-- The loop of the worker of `concatenate_csv_streams`.
unfoldable pub concatenate_from : Bool → List (Result Error CsvStream) → Bytes
unfolding strip_csv_header try_forward_to_sender
concatenate_from first [] = []
concatenate_from first (err e ∷ csv_streams) = send_err e
concatenate_from first (ok csv_stream ∷ csv_streams) =
    let stripped = if first then csv_stream.bytes else strip_csv_header csv_stream.bytes in
    send_then (try_forward_to_sender stripped) (concatenate_from false csv_streams)

unfoldable pub concatenate_csv_streams : List (Result Error CsvStream) → CsvStream
unfolding concatenate_from
concatenate_csv_streams csv_streams = record {
  name = codes "combined";
  bytes = concatenate_from true csv_streams;
}
