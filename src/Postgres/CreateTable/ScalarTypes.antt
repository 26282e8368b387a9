-- ===== src/Postgres/CreateTable/ScalarTypes.antt =====
-- dbcrossbarlib/src/drivers/postgres_shared/table/create_table_sql.rs: the types that are written are read.
use dbcrossbar.Base.{
  ℕ, ◌≡◌, refl, true, false, none, some, all, Text, codes, [], ◌∷◌, ◌++◌, append_assoc, arith,
  and_both,
}
use dbcrossbar.Peg.{matched}
use dbcrossbar.Peg.Repeats.{star}
use dbcrossbar.Peg.Spans.{span-append}
use dbcrossbar.BigQuery.Grammar.{is_name_part}
use dbcrossbar.FromCsvCell.{is_digit, digits}
use dbcrossbar.Schema.{Srid}
use dbcrossbar.Postgres.Types.{PgScalarDataType, display_scalar}
use dbcrossbar.Postgres.SqlText.{ws_item, ws_opt, srid}
use dbcrossbar.Postgres.CreateTable.{geometry, scalar_data_type}

-- The text of a number is digits, which are the number's, and it is a `u32`.
abbrev pub IsNumeral : (ℕ → Text) → ℕ → Type 0
IsNumeral decimal n = (all is_digit (decimal n) ≡ true) × (digits 4294967295 (decimal n) ≡ some n)

abbrev pub HasNumeral : (ℕ → Text) → PgScalarDataType → Type 0
HasNumeral decimal (PgScalarDataType.geometry wgs) = IsNumeral decimal wgs.code
HasNumeral decimal _ = Unit

ws_item_digit : (c : ℕ) (r : Text) → is_digit c ≡ true → ws_item (c ∷ r) ≡ none
unfolding ws_item
ws_item_digit c r h = ground arith

ws_opt_digit : (c : ℕ) (r : Text) → is_digit c ≡ true → ws_opt (b' ' ∷ c ∷ r) ≡ c ∷ r
unfolding ws_opt star
ws_opt_digit c r h = rw (ws_item_digit c r h) refl

-- A number after a blank, up to the sign behind it.
srid-digits :
    (n : ℕ) (s r : Text)
    → all is_digit s ≡ true
    → digits 4294967295 s ≡ some n
    → srid (ws_opt (b' ' ∷ s ++ b')' ∷ r)) ≡ matched n (b')' ∷ r)
srid-digits n [] r d v = unfold digits in absurd (cc)
srid-digits n (c ∷ s) r d v =
    let (first, rest) = and_both (is_digit c) (all is_digit s) d in
    rw (ws_opt_digit c (s ++ b')' ∷ r) first)
      (unfold srid in rw (span-append is_digit (c ∷ s) (b')' ∷ r) d refl) (rw v))

geometry-display :
    (decimal : ℕ → Text) (n : Srid) (r : Text)
    → IsNumeral decimal n.code
    → geometry (display_scalar decimal (PgScalarDataType.geometry n) ++ r)
      ≡ matched (PgScalarDataType.geometry n) r
unfolding geometry
geometry-display decimal n r (d, v) =
    rw (append_assoc (decimal n.code) (codes ")") r)
      (rw (srid-digits n.code (decimal n.code) r d v))

-- What is behind a type is no part of its name.
pub scalar_data_type-display :
    (decimal : ℕ → Text) (ty : PgScalarDataType) (c : ℕ) (r : Text)
    → HasNumeral decimal ty
    → is_name_part c ≡ false
    → scalar_data_type (display_scalar decimal ty ++ c ∷ r) ≡ matched ty (c ∷ r)
unfolding scalar_data_type
scalar_data_type-display decimal PgScalarDataType.boolean c r n h = refl
scalar_data_type-display decimal PgScalarDataType.date c r n h = refl
scalar_data_type-display decimal PgScalarDataType.numeric c r n h = refl
scalar_data_type-display decimal PgScalarDataType.real c r n h = refl
scalar_data_type-display decimal PgScalarDataType.double_precision c r n h = refl
scalar_data_type-display decimal (PgScalarDataType.geometry code) c r n h =
    rw (geometry-display decimal code (c ∷ r) n) refl
scalar_data_type-display decimal PgScalarDataType.smallint c r n h = refl
scalar_data_type-display decimal PgScalarDataType.int c r n h = ground arith
scalar_data_type-display decimal PgScalarDataType.bigint c r n h = refl
scalar_data_type-display decimal PgScalarDataType.json c r n h = ground arith
scalar_data_type-display decimal PgScalarDataType.jsonb c r n h = refl
scalar_data_type-display decimal PgScalarDataType.text c r n h = refl
scalar_data_type-display decimal PgScalarDataType.timestamp_without_time_zone c r n h = refl
scalar_data_type-display decimal PgScalarDataType.timestamp_with_time_zone c r n h = refl
scalar_data_type-display decimal PgScalarDataType.uuid c r n h = refl
