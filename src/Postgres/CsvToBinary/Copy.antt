-- ===== src/Postgres/CsvToBinary/Copy.antt =====
-- dbcrossbarlib/src/drivers/postgres/csv_to_binary/mod.rs: the file that `copy_csv_to_pg_binary`
-- writes, as a reader of the format finds it.
use dbcrossbar.Base.{
  ℕ, Bool, leb, suc, ◌+◌, ◌≤◌, ◌==◌, ==_iff, true, false, ◌&&◌, List, [], ◌∷◌, ◌++◌, Option, none,
  some, Text, length, length-append, ok, err, >>=-eq-ok, ok-injective, ◌≡◌, refl, ap, ap₂, ◌∙◌, sym,
  subst, arith, Bool-cases, inl, inr, All, if-eq, map, text_eq, text_eq→eq,
}
use dbcrossbar.Bytes.{Bytes, be16, be32, i16_of_usize}
use dbcrossbar.Bytes.Laws.{i16_of_usize-some}
use dbcrossbar.Postgres.Column.{PgColumn}
use dbcrossbar.Postgres.CsvToBinary.{
  Crates, CopyError, found, typed_to_binary, cell_to_binary, cells_to_binary, row_to_binary,
  rows_to_binary, check_names, check_headers, copy_csv_to_pg_binary, is_empty, file_header,
}
use dbcrossbar.Postgres.CsvToBinary.Framing.{typed_to_binary-IsFramed}
use dbcrossbar.Postgres.CsvToBinary.Reader.{
  Field, read_header, read_file, encode_field, encode_fields, encode_tuple, encode_tuples, Fits,
  FitsTuple, read_tuples-encode,
}

found-ok : {A : Type 0} (o : Option A) (e : CopyError) {a : A} → found o e ≡ ok a → o ≡ some a
found-ok (some a) e h = cc
found-ok none e h = absurd (cc)

length-encode_tuples : (rows : List (List Field)) → length rows ≤ length (encode_tuples rows)
length-encode_tuples [] = omega arith
length-encode_tuples (fs ∷ rows) =
    omega (arith, length-encode_tuples rows, length-append (encode_fields fs) (encode_tuples rows))

read_header-file_header : (rest : Bytes) → read_header (file_header ++ rest) ≡ some rest
unfolding read_header
read_header-file_header rest = let fits : leb 0 (length rest) ≡ true = ground arith in rw fits refl

read_file-encode :
    (rows : List (List Field))
    → All FitsTuple rows
    → read_file (file_header ++ encode_tuples rows) ≡ some rows
unfolding read_file
read_file-encode rows fits =
    rw (read_header-file_header (encode_tuples rows))
      (read_tuples-encode rows (length (encode_tuples rows)) fits (length-encode_tuples rows))

check_headers-ok :
    (headers : List Text) (cols : List PgColumn) {u : Unit {0}}
    → check_headers headers cols ≡ ok u
    → (length headers ≡ length cols) × (check_names 0 headers cols ≡ ok u)
unfolding check_headers
check_headers-ok headers cols h =
    elim (if-eq (length headers == length cols) (check_names 0 headers cols)
      (err (CopyError.column_count (length headers) (length cols))) h) [
        | inl (same, named) ↦ ((==_iff (length headers) (length cols)).0 same, named)
        | inr (_, other) ↦ absurd (cc)
      ]

check_names-ok :
    (idx : ℕ) (headers : List Text) (cols : List PgColumn) {u : Unit {0}}
    → length headers ≡ length cols
    → check_names idx headers cols ≡ ok u
    → headers ≡ map (λ (c : PgColumn). c.name) cols
unfolding check_names
check_names-ok idx [] [] e h = refl
check_names-ok idx [] (col ∷ cols) e h = absurd (omega arith)
check_names-ok idx (hdr ∷ headers) [] e h = absurd (omega arith)
check_names-ok idx (hdr ∷ headers) (col ∷ cols) e h =
    elim (if-eq (text_eq hdr col.name) (check_names (idx + 1) headers cols)
      (err (CopyError.column_name hdr idx col.name)) h) [
        | inl (same, rest) ↦
            ap₂ (λ x xs. x ∷ xs) (text_eq→eq hdr col.name same)
              (check_names-ok (idx + 1) headers cols (omega arith) rest)
        | inr (_, other) ↦ absurd (cc)
      ]

-- The reader of the csv crate answers rows of one length, that of the headers.
abbrev pub AreEven : ℕ → List (Option (List Text)) → Type 0
AreEven n [] = Unit
AreEven n (none ∷ records) = AreEven n records
AreEven n (some row ∷ records) = (length row ≡ n) × AreEven n records

abbrev has_no_text : Text → Bool
has_no_text [] = true
has_no_text (_ ∷ _) = false

module _ (k : Crates) where
  -- A field for a cell: a null where the cell is empty and the column takes nulls, and otherwise the
  -- bytes that the type of the column makes of the cell, without their length.
  abbrev pub IsFieldOf : PgColumn → Text → Field → Type 0
  IsFieldOf col cell none = (has_no_text cell && col.is_nullable) ≡ true
  IsFieldOf col cell (some payload) =
      ((has_no_text cell && col.is_nullable) ≡ false)
      × (typed_to_binary k col.data_type cell ≡ ok (be32 (length payload) ++ payload))

  abbrev pub AreFieldsOf : List PgColumn → List Text → List Field → Type 0
  AreFieldsOf [] [] [] = Unit
  AreFieldsOf (col ∷ cols) (cell ∷ row) (f ∷ fs) = IsFieldOf col cell f × AreFieldsOf cols row fs
  AreFieldsOf _ _ _ = ⊥

  abbrev pub AreRowsOf : List PgColumn → List (Option (List Text)) → List (List Field) → Type 0
  AreRowsOf cols [] [] = Unit
  AreRowsOf cols (some row ∷ records) (fs ∷ rows) =
      AreFieldsOf cols row fs × AreRowsOf cols records rows
  AreRowsOf cols _ _ = ⊥

  cell_to_binary-IsFieldOf :
      (col : PgColumn) (cell : Text) {written : Bytes}
      → cell_to_binary k col cell ≡ ok written
      → (f : Field) × IsFieldOf col cell f × Fits f × (written ≡ encode_field f)
  unfolding cell_to_binary
  cell_to_binary-IsFieldOf col cell h = elim (Bool-cases (is_empty cell && col.is_nullable)) [
    | inl null ↦ (none, null, tt, sym (ok-injective (rw null at h)))
    | inr value ↦
        let made = rw value at h in
        let (payload, framed) = typed_to_binary-IsFramed k col.data_type cell made in
        (some payload, (value, made ∙ ap ok framed.framed), framed.fits, framed.framed)
  ]

  cells_to_binary-AreFieldsOf :
      (cols : List PgColumn) (row : List Text) {written : Bytes}
      → length row ≡ length cols
      → cells_to_binary k cols row ≡ ok written
      → (fs : List Field) × AreFieldsOf cols row fs
        × All Fits fs
        × (length fs ≡ length row)
        × (written ≡ encode_fields fs)
  unfolding cells_to_binary
  cells_to_binary-AreFieldsOf [] [] e h = ([], tt, tt, refl, sym (ok-injective h))
  cells_to_binary-AreFieldsOf [] (cell ∷ row) e h = absurd (omega arith)
  cells_to_binary-AreFieldsOf (col ∷ cols) [] e h = absurd (omega arith)
  cells_to_binary-AreFieldsOf (col ∷ cols) (cell ∷ row) e h =
      let (here, made, others) = >>=-eq-ok (cell_to_binary k col cell) _ h in
      let (rest, rest_made, joined) = >>=-eq-ok (cells_to_binary k cols row) _ others in
      let (f, is_field, fits, encoded) = cell_to_binary-IsFieldOf col cell made in
      let (fs, are_fields, all_fit, as_many, all_encoded) =
        cells_to_binary-AreFieldsOf cols row (omega arith) rest_made in
      (
        f ∷ fs,
        (is_field, are_fields),
        (fits, all_fit),
        ap suc as_many,
        sym (ok-injective joined) ∙ ap₂ (λ a b. a ++ b) encoded all_encoded,
      )

  row_to_binary-AreFieldsOf :
      (cols : List PgColumn) (row : List Text) {written : Bytes}
      → length row ≡ length cols
      → row_to_binary k cols row ≡ ok written
      → (fs : List Field) × AreFieldsOf cols row fs × FitsTuple fs × (written ≡ encode_tuple fs)
  unfolding row_to_binary
  row_to_binary-AreFieldsOf cols row e h =
      let (count, counted, more) =
        >>=-eq-ok (found (i16_of_usize (length row)) CopyError.too_many_fields) _ h in
      let (cells, made, joined) = >>=-eq-ok (cells_to_binary k cols row) _ more in
      let (fs, are_fields, fits, as_many, encoded) = cells_to_binary-AreFieldsOf cols row e made in
      let (equal, few) =
        i16_of_usize-some (length row) count
          (found-ok (i16_of_usize (length row)) CopyError.too_many_fields counted) in
      (
        fs,
        are_fields,
        (omega arith, fits),
        sym (ok-injective joined) ∙ ap₂ (λ n b. be16 n ++ b) (equal ∙ sym as_many) encoded,
      )

  rows_to_binary-AreRowsOf :
      (cols : List PgColumn) (records : List (Option (List Text))) {written : Bytes}
      → AreEven (length cols) records
      → rows_to_binary k cols records ≡ ok written
      → (rows : List (List Field)) × AreRowsOf cols records rows
        × All FitsTuple rows
        × (written ≡ encode_tuples rows)
  unfolding rows_to_binary
  rows_to_binary-AreRowsOf cols [] e h = ([], tt, tt, sym (ok-injective h))
  rows_to_binary-AreRowsOf cols (none ∷ records) e h = absurd (cc)
  rows_to_binary-AreRowsOf cols (some row ∷ records) (e, even) h =
      let (here, made, others) = >>=-eq-ok (row_to_binary k cols row) _ h in
      let (rest, rest_made, joined) = >>=-eq-ok (rows_to_binary k cols records) _ others in
      let (fs, are_fields, fits, encoded) = row_to_binary-AreFieldsOf cols row e made in
      let (rows, are_rows, all_fit, all_encoded) =
        rows_to_binary-AreRowsOf cols records even rest_made in
      (
        fs ∷ rows,
        (are_fields, are_rows),
        (fits, all_fit),
        sym (ok-injective joined) ∙ ap₂ (λ a b. a ++ b) encoded all_encoded,
      )

  -- When the copy succeeds on rows as long as the headers, the headers are the names of the columns,
  -- and a reader of the format finds in what was written one tuple for each record, with one field
  -- for each column: a null exactly where the cell is empty and the column takes nulls, and
  -- otherwise the bytes that the column's type makes of the cell.
  pub read_file-copy_csv_to_pg_binary :
      (cols : List PgColumn) (headers : List Text) (records : List (Option (List Text)))
      {written : Bytes}
      → AreEven (length headers) records
      → copy_csv_to_pg_binary k cols (some headers) records ≡ ok written
      → (headers ≡ map (λ (c : PgColumn). c.name) cols)
        × ((rows : List (List Field)) × (read_file written ≡ some rows)
            × AreRowsOf cols records rows)
  unfolding copy_csv_to_pg_binary
  read_file-copy_csv_to_pg_binary cols headers records even h =
      let (u, checked, more) = >>=-eq-ok (check_headers headers cols) _ h in
      let (as_many, named) = check_headers-ok headers cols checked in
      let (bytes, made, joined) = >>=-eq-ok (rows_to_binary k cols records) _ more in
      let (rows, are_rows, fits, encoded) =
        rows_to_binary-AreRowsOf cols records (subst (λ n. AreEven n records) as_many even) made in
      (
        check_names-ok 0 headers cols as_many named,
        (
          rows,
          ap read_file (sym (ok-injective joined) ∙ ap (λ b. file_header ++ b) encoded)
              ∙ read_file-encode rows fits,
          are_rows,
        ),
      )
