-- ===== src/Postgres/CsvToBinary/Reader.antt =====
-- A reader of the `FORMAT BINARY` of COPY, as PostgreSQL documents it and independent of the writer
-- in dbcrossbarlib/src/drivers/postgres/csv_to_binary: a header, then for each row the number of its
-- fields and the fields; with the lemmas that it reads back what is written.
use dbcrossbar.Base.{
  ℕ, zero, suc, ◌<◌, ◌≤◌, ◌==◌, leb, true, false, List, [], ◌∷◌, ◌++◌, append_assoc, Option, none,
  some, length, take, drop, take-length_append, drop-length_append, length-append, if◌then◌else◌,
  ◌≡◌, refl, arith, All, strip_prefix, ◌&&◌,
}
use dbcrossbar.Bytes.{Bytes, be16, be32}
use dbcrossbar.Bytes.Laws.{read16, read32, read32-be32, read16-be16}

abbrev pub Field : Type 0
Field = Option Bytes

-- The length of a field is an `i32`: -1 is a null.
unfoldable pub take_field : ℕ → Bytes → Option (Field × Bytes)
take_field n rest =
    if n == 4294967295
    then some (none, rest)
    else if leb n (length rest)
    then some (some (take n rest), drop n rest)
    else none

unfoldable pub read_field : Bytes → Option (Field × Bytes)
unfolding take_field
read_field (a ∷ b ∷ c ∷ d ∷ rest) = take_field (read32 a b c d) rest
read_field _ = none

infixl 5 ◌>=>◌
abbrev pub ◌>=>◌ :
    {A B : Type 0} → Option (A × Bytes) → (A → Bytes → Option (B × Bytes)) → Option (B × Bytes)
none >=> k = none
some (a, rest) >=> k = k a rest

unfoldable pub read_fields : ℕ → Bytes → Option (List Field × Bytes)
unfolding read_field
read_fields zero bytes = some ([], bytes)
read_fields (suc n) bytes =
    read_field bytes >=> λ f rest. read_fields n rest >=> λ fs rest'. some (f ∷ fs, rest')

abbrev pub then_row : List Field → Option (List (List Field)) → Option (List (List Field))
then_row fs none = none
then_row fs (some rows) = some (fs ∷ rows)

abbrev pub more :
    Option (List Field × Bytes) → (Bytes → Option (List (List Field))) → Option (List (List Field))
more none next = none
more (some (fs, rest)) next = then_row fs (next rest)

-- Tuples up to the end of the input, on fuel.
unfoldable pub read_tuples : ℕ → Bytes → Option (List (List Field))
unfolding read_fields
read_tuples fuel [] = some []
read_tuples zero (_ ∷ _) = none
read_tuples (suc fuel) (a ∷ []) = none
read_tuples (suc fuel) (a ∷ b ∷ bytes) =
    more (read_fields (read16 a b) bytes) (λ rest. read_tuples fuel rest)

-- The signature that PostgreSQL documents: PGCOPY, a line feed, 255, a carriage return, a line feed
-- and a zero.
abbrev documented_signature : Bytes
documented_signature = 80 ∷ 71 ∷ 67 ∷ 79 ∷ 80 ∷ 89 ∷ 10 ∷ 255 ∷ 13 ∷ 10 ∷ 0 ∷ []

-- The flags are 32 bits, of which the upper half is critical: a reader refuses those that it does not
-- know, and OIDs. The length of an extension of the header is 32 bits, and the extension is skipped.
unfoldable pub read_flags : Bytes → Option Bytes
read_flags (f₁ ∷ f₂ ∷ f₃ ∷ f₄ ∷ a ∷ b ∷ c ∷ d ∷ rest) =
    let n = read32 a b c d in
    if f₁ == 0 && f₂ == 0 && leb n (length rest) then some (drop n rest) else none
read_flags _ = none

abbrev and_flags : Option Bytes → Option Bytes
and_flags none = none
and_flags (some rest) = read_flags rest

unfoldable pub read_header : Bytes → Option Bytes
unfolding strip_prefix read_flags
read_header bytes = and_flags (strip_prefix documented_signature bytes)

abbrev behind_header : Option Bytes → Option (List (List Field))
behind_header none = none
behind_header (some rest) = read_tuples (length rest) rest

-- The tuples of a file. As PostgreSQL does, it takes the end of the data for the end of the file,
-- also where no trailer is.
unfoldable pub read_file : Bytes → Option (List (List Field))
unfolding read_tuples read_header
read_file bytes = behind_header (read_header bytes)

-- A field, and fields, as they are to be written.
abbrev pub encode_field : Field → Bytes
encode_field none = be32 4294967295
encode_field (some payload) = be32 (length payload) ++ payload

abbrev pub encode_fields : List Field → Bytes
encode_fields [] = []
encode_fields (f ∷ fs) = encode_field f ++ encode_fields fs

abbrev pub encode_tuple : List Field → Bytes
encode_tuple fs = be16 (length fs) ++ encode_fields fs

abbrev pub encode_tuples : List (List Field) → Bytes
encode_tuples [] = []
encode_tuples (fs ∷ rows) = encode_tuple fs ++ encode_tuples rows

abbrev pub Fits : Field → Type 0
Fits none = Unit
Fits (some payload) = length payload < 2147483648

-- A tuple whose number of fields is an `i16`.
abbrev pub FitsTuple : List Field → Type 0
FitsTuple fs = (length fs < 32768) × All Fits fs

take_all :
    (payload rest : Bytes)
    → length payload < 2147483648
    → take_field (length payload) (payload ++ rest) ≡ some (some payload, rest)
unfolding take_field
take_all payload rest h =
    let no_null : (length payload == 4294967295) ≡ false = ground arith in
    let fits : leb (length payload) (length (payload ++ rest)) ≡ true =
      ground (arith, length-append payload rest) in
    rw (no_null, fits, take-length_append payload rest, drop-length_append payload rest)

read_field-encode :
    (f : Field) (rest : Bytes) → Fits f → read_field (encode_field f ++ rest) ≡ some (f, rest)
unfolding read_field
read_field-encode none rest h = unfold take_field in refl
read_field-encode (some payload) rest h =
    rw (read32-be32 (length payload) (omega arith)) (take_all payload rest h)

read_fields-encode :
    (fs : List Field) (rest : Bytes)
    → All Fits fs
    → read_fields (length fs) (encode_fields fs ++ rest) ≡ some (fs, rest)
unfolding read_fields
read_fields-encode [] rest h = refl
read_fields-encode (f ∷ fs) rest (here, h) =
    rw (append_assoc (encode_field f) (encode_fields fs) rest)
      (rw (read_field-encode f (encode_fields fs ++ rest) here) (rw (read_fields-encode fs rest h)))

-- What was written of any tuples is read back as these tuples.
pub read_tuples-encode :
    (rows : List (List Field)) (fuel : ℕ)
    → All FitsTuple rows
    → length rows ≤ fuel
    → read_tuples fuel (encode_tuples rows) ≡ some rows
unfolding read_tuples
read_tuples-encode [] fuel h le = refl
read_tuples-encode (fs ∷ rows) zero h le = absurd (omega arith)
read_tuples-encode (fs ∷ rows) (suc fuel) ((few, fit), h) le =
    rw (read16-be16 (length fs) (omega arith)) (
      rw (read_fields-encode fs (encode_tuples rows) fit)
        (rw (read_tuples-encode rows fuel h (omega arith))))
