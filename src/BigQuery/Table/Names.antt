-- ===== src/BigQuery/Table/Names.antt =====
-- The names of a table's columns.
use dbcrossbar.Base.{
  ◌≡◌, refl, ◌↔◌, ◌≢◌, true, Option, none, some, Text, List, [], ◌∷◌, map, ok, err, All, Bool-cases,
  inl, inr, text_eq_iff, >>=-eq-ok, ok-injective, ap₂, Result, arith, ap,
}
use dbcrossbar.Schema.{Column}
use dbcrossbar.BigQuery.ColumnName.{ColumnName, name_eq, to_ascii_lowercase, try_from, NameError}
use dbcrossbar.BigQuery.ColumnName.Validity.{
  IsName, in_lower_case, of_text, try_from-of_IsName, try_from-eq-ok, as_lowercase-of_text,
}
use dbcrossbar.BigQuery.Types.{Usage, csv_load, non_array}
use dbcrossbar.BigQuery.Convert.CsvLoad.{for_data_type-csv_load}
use dbcrossbar.BigQuery.Column.{BqColumn, name, for_column}
use dbcrossbar.BigQuery.Column.Laws.{for_column-made, made, name-made}
use dbcrossbar.BigQuery.Table.{
  TableError, table_name_for, get_name, for_columns, for_table_columns, unless_seen, lift_name,
  lift_converted,
}

-- Two texts differ, also up to the case of letters.
abbrev pub Differ : Text → Text → Type 0
Differ s t = in_lower_case s ≢ in_lower_case t

-- Each name is a column name and differs from all before it.
abbrev pub AreNew : List Text → List Column → Type 0
AreNew earlier [] = Unit
AreNew earlier (c ∷ columns) =
    IsName c.name × All (λ s. Differ s c.name) earlier × AreNew (c.name ∷ earlier) columns

name_eq-of_text_iff :
    (s t : Text)
    → (name_eq (of_text s) (of_text t) ≡ true)
      ↔ (map to_ascii_lowercase s ≡ map to_ascii_lowercase t)
unfolding name_eq
name_eq-of_text_iff s t = rw (as_lowercase-of_text s, as_lowercase-of_text t) (text_eq_iff _ _)

get_name-none :
    (t : Text) (earlier : List Text)
    → get_name (of_text t) (map of_text earlier) ≡ none
    → All (λ s. Differ s t) earlier
unfolding get_name
get_name-none t [] e = tt
get_name-none t (s ∷ earlier) e = elim (Bool-cases (name_eq (of_text s) (of_text t))) [
  | inl same ↦ ground arith
  | inr other ↦ (λ eq. cc ((name_eq-of_text_iff s t).1 eq), get_name-none t earlier (ground arith))
]

get_name-All :
    (t : Text) (earlier : List Text)
    → All (λ s. Differ s t) earlier
    → get_name (of_text t) (map of_text earlier) ≡ none
unfolding get_name
get_name-All t [] h = refl
get_name-All t (s ∷ earlier) h = elim (Bool-cases (name_eq (of_text s) (of_text t))) [
  | inl same ↦ absurd (h.0 ((name_eq-of_text_iff s t).0 same))
  | inr other ↦ rw other (get_name-All t earlier h.1)
]

lift_name-eq-ok : (r : Result NameError ColumnName) {n : ColumnName} → lift_name r ≡ ok n → r ≡ ok n
lift_name-eq-ok (ok m) e = ap ok (ok-injective e)
lift_name-eq-ok (err x) e = cc

unless_seen-eq-ok :
    (prev : Option ColumnName) (n : ColumnName) (after : Result TableError (List BqColumn))
    {bs : List BqColumn}
    → unless_seen prev n after ≡ ok bs
    → (prev ≡ none) × (after ≡ ok bs)
unless_seen-eq-ok none n after e = (refl, e)
unless_seen-eq-ok (some p) n after e = cc

for_columns-AreNew :
    (earlier : List Text) (columns : List Column) (usage : Usage) {bs : List BqColumn}
    → for_columns (map of_text earlier) columns usage ≡ ok bs
    → AreNew earlier columns
unfolding for_columns
for_columns-AreNew earlier [] usage e = tt
for_columns-AreNew earlier (c ∷ columns) usage e =
    let (n, p, q) = >>=-eq-ok (table_name_for c.name) _ e in
    let (valid, same) = try_from-eq-ok c.name (lift_name-eq-ok (try_from c.name) p) in
    let (fresh, later) =
      unless_seen-eq-ok (get_name (of_text c.name) (map of_text earlier)) _ _ (rw (← same) at q) in
    let (col, _, rest) = >>=-eq-ok (lift_converted (for_column (of_text c.name) c usage)) _ later in
    let (cols, tail, _) =
      >>=-eq-ok (for_columns (of_text c.name ∷ map of_text earlier) columns usage) _ rest in
    (
      valid,
      get_name-none c.name earlier fresh,
      for_columns-AreNew (c.name ∷ earlier) columns usage tail,
    )

for_columns-csv_load :
    (earlier : List Text) (columns : List Column)
    → AreNew earlier columns
    → (bs : List BqColumn) × (for_columns (map of_text earlier) columns csv_load ≡ ok bs)
      × (map name bs ≡ map (λ c. of_text c.name) columns)
unfolding for_columns
for_columns-csv_load earlier [] h = ([], refl, refl)
for_columns-csv_load earlier (c ∷ columns) h =
    let (b, converted, _) = for_data_type-csv_load c.data_type in
    let (bs, rest, names) = for_columns-csv_load (c.name ∷ earlier) columns h.2 in
    let column = for_column-made (of_text c.name) c csv_load converted in
    (
      made c.is_nullable (of_text c.name) (non_array b) ∷ bs,
      rw (try_from-of_IsName c.name h.0, get_name-All c.name earlier h.1, column, rest),
      ap₂ (λ x xs. x ∷ xs) (name-made c.is_nullable (of_text c.name) (non_array b)) names,
    )

-- Whatever the columns are made for, they are made only where each name is a column name and no two
-- agree up to the case of letters: neither the types nor the usage can make the names acceptable.
pub for_table_columns-AreNew :
    (columns : List Column) (usage : Usage) {bs : List BqColumn}
    → for_table_columns columns usage ≡ ok bs
    → AreNew [] columns
unfolding for_table_columns
for_table_columns-AreNew columns usage e = for_columns-AreNew [] columns usage e

-- For loading from CSV, the columns of a table are made exactly where each name begins with `_` or an
-- ASCII letter and goes on with these and digits (at any length and with any prefix), and no two
-- agree up to the case of ASCII letters; the names are then those texts, in order.
pub for_table_columns_iff :
    (columns : List Column)
    → ((bs : List BqColumn) × (for_table_columns columns csv_load ≡ ok bs)
        × (map name bs ≡ map (λ c. of_text c.name) columns))
      ↔ AreNew [] columns
unfolding for_table_columns
for_table_columns_iff columns = (
  λ (bs, e, _). for_table_columns-AreNew columns csv_load e,
  λ h. for_columns-csv_load [] columns h,
)
