-- ===== src/Csv/Concat/Strip.antt =====
-- `strip_csv_header` removes the header wherever the chunks of the stream end.
use dbcrossbar.Csv.Concat.{after_search}
use dbcrossbar.Csv.Header.Laws.{
  quoted, Header, IsLine, incomplete, complete, quoted, csv_header_length-Header,
}
use dbcrossbar.Csv.Header.{newline}
use dbcrossbar.Base.{
  append-nil, sym, ℕ, arith, any, ◌==◌, if◌then◌else◌, Bool-cases, inl, inr, suc, ◌+◌, ◌≡◌, refl,
  Option, none, some, Text, [], ◌∷◌, ◌++◌, drop, length, Result, ok, err, append_assoc,
}
use dbcrossbar.Csv.Concat.{extend, strip_from, strip_csv_header}
use dbcrossbar.Csv.Streams.{
  Error, Bytes, Collected, prepend, collect, end_of_headers, quoted_headers, collect-try_forward,
}

abbrev add_to_line : ℕ → Option (Text × Text) → Option (Text × Text)
add_to_line c none = none
add_to_line c (some (line, rest)) = some (c ∷ line, rest)

-- A text at its first line feed: what is before it, and what is behind it.
unfoldable pub split_line : Text → Option (Text × Text)
split_line [] = none
split_line (c ∷ s) = let rest = split_line s in if c == 10 then some ([], s) else add_to_line c rest

-- What is left of a text behind its first line, which must not have quotation marks.
abbrev pub behind_line : Option (Text × Text) → Option Error → Collected
behind_line (some (line, rest)) end =
    if any (λ b. b == 34) line then ([], some quoted_headers) else (rest, end)
behind_line none (some e) = ([], some e)
behind_line none none = ([], some end_of_headers)

-- What is left of the bytes of a stream, and its end, without the header.
unfoldable pub after_header : Collected → Collected
unfolding split_line
after_header (s, end) = behind_line (split_line s) end

pub drop_past :
    (line : Text) (b : ℕ) (rest : Text) → drop (length line + 1) (line ++ b ∷ rest) ≡ rest
drop_past [] b rest = refl
drop_past (c ∷ line) b rest =
    let e : suc (length line) + 1 ≡ suc (length line + 1) = omega arith in
    rw e (drop_past line b rest)

split_line-IsLine : (s : Text) → IsLine s → split_line s ≡ none
unfolding split_line
split_line-IsLine [] l = refl
split_line-IsLine (c ∷ s) l = elim (Bool-cases (c == newline)) [
  | inl same ↦ ground arith
  | inr other ↦ rw (other, split_line-IsLine s (ground arith)) refl
]

split_line-append :
    (line rest : Text) → IsLine line → split_line (line ++ newline ∷ rest) ≡ some (line, rest)
unfolding split_line
split_line-append [] rest l = refl
split_line-append (c ∷ line) rest l = elim (Bool-cases (c == newline)) [
  | inl same ↦ ground arith
  | inr other ↦ rw (other, split_line-append line rest (ground arith)) refl
]

after_header-IsLine :
    (s : Text) (end : Option Error) → IsLine s → after_header (s, end) ≡ behind_line none end
unfolding after_header
after_header-IsLine s end l = rw (split_line-IsLine s l) refl

pub after_header-append :
    (line rest : Text) (end : Option Error)
    → IsLine line
    → after_header (line ++ newline ∷ rest, end) ≡ behind_line (some (line, rest)) end
unfolding after_header
after_header-append line rest end l = rw (split_line-append line rest l) refl

-- What the search sends is right if what it sends later is right, when there is no header yet.
after_search-Header :
    {s : Text} {r : Result Error (Option ℕ)}
    → Header s r
    → (stream looking : Bytes)
    → (IsLine s → collect looking ≡ after_header (prepend s (collect stream)))
    → collect (after_search r s stream looking) ≡ after_header (prepend s (collect stream))
unfolding collect
after_search-Header (incomplete l) stream looking later = later l
after_search-Header (complete line rest l q) stream looking later =
    let bytes = rest ++ (collect stream).0 in
    rw (append_assoc line (newline ∷ rest) (collect stream).0) (
      rw (after_header-append line bytes (collect stream).1 l, q, collect-try_forward stream)
        (rw (drop_past line newline rest) refl))
after_search-Header (quoted line rest l q) stream looking later =
    let bytes = rest ++ (collect stream).0 in
    rw (append_assoc line (newline ∷ rest) (collect stream).0)
      (rw (after_header-append line bytes (collect stream).1 l, q) refl)

abbrev pub buffered : Option Text → Text
buffered none = []
buffered (some s) = s

extend-buffered :
    (buffer : Option Text) (bytes : Text) → extend buffer bytes ≡ buffered buffer ++ bytes
extend-buffered none bytes = refl
extend-buffered (some s) bytes = refl

strip_from-collect :
    (buffer : Option Text) (stream : Bytes)
    → IsLine (buffered buffer)
    → collect (strip_from buffer stream) ≡ after_header (prepend (buffered buffer) (collect stream))
unfolding strip_from collect
strip_from-collect buffer [] l =
    rw (append-nil (buffered buffer)) (rw (after_header-IsLine (buffered buffer) none l) refl)
strip_from-collect buffer (err e ∷ stream) l =
    rw (append-nil (buffered buffer)) (rw (after_header-IsLine (buffered buffer) (some e) l) refl)
strip_from-collect buffer (ok bytes ∷ stream) l = rw (extend-buffered buffer bytes) (
    rw (sym (append_assoc (buffered buffer) bytes (collect stream).0)) (
      after_search-Header (csv_header_length-Header (buffered buffer ++ bytes)) stream
        (strip_from (some (buffered buffer ++ bytes)) stream)
        λ l₂. strip_from-collect (some (buffered buffer ++ bytes)) stream l₂))

-- However the bytes of a stream are cut into chunks, what is read of `strip_csv_header` is what
-- follows the header in all of them: the bytes after the first newline, or the error that there is
-- none (after the stream's own error, if it has one), or that the header is quoted.
pub collect-strip_csv_header :
    (stream : Bytes) → collect (strip_csv_header stream) ≡ after_header (collect stream)
unfolding strip_csv_header
collect-strip_csv_header stream = strip_from-collect none stream refl
