-- ===== src/Postgres/CreateTable.antt =====
-- dbcrossbarlib/src/drivers/postgres_shared/table/create_table_sql.rs: the parsing expression grammar of
-- `CREATE TABLE`.
pub mod Schemas
pub mod Words
pub mod ScalarTypes
pub mod Columns
pub mod RoundTrip
pub mod Bounded
pub mod Fuel
use dbcrossbar.Base.{
  ℕ, zero, suc, ◌+◌, Bool, true, false, List, [], ◌∷◌, Option, none, some, Text, codes, length,
  ◌==◌, ◌&&◌, ◌||◌, leb, if◌then◌else◌,
}
use dbcrossbar.Peg.{
  Peg, matched, failed, panicked, out_of_fuel, bind, orelse, of_option, literal, span, finish,
}
use dbcrossbar.BigQuery.Grammar.{is_name_start, is_name_part, is_blank}
use dbcrossbar.FromCsvCell.{is_digit, digits}
use dbcrossbar.Postgres.Types.{PgDataType, PgScalarDataType, array, scalar}
use dbcrossbar.Postgres.Column.{PgColumn}
use dbcrossbar.Postgres.SqlText.{
  skip_comment, comment, ws_item, ws_opt, or_fail, ws, lower, strip_ignoring_case, i, optional,
  then_ws, sign, is_bare_part, add, quoted_body, replace, bare_identifier, quoted_identifier,
  identifier, expect, one_or_more, srid, phrase,
}
use dbcrossbar.Postgres.Quote.{double_quote}
use dbcrossbar.Postgres.TableName.{TableName}
use dbcrossbar.Postgres.Table.{PgCreateTable}

-- `( ws()? "(" ws()? ['0'..='9']+ ws()? ")" )?`.
unfoldable pub length_limit : Text → Peg (Unit {0})
unfolding literal ws_opt span
length_limit = optional λ ts.
    bind (sign (codes "(") ts)
      λ _ r₁. bind (one_or_more (span is_digit (ws_opt r₁))) λ _ r₂. sign (codes ")") r₂

unfoldable pub geometry : Text → Peg PgScalarDataType
unfolding literal ws_opt i identifier srid
geometry ts = bind (optional (i (codes "public.")) ts) λ _ r₁.
    bind (i (codes "geometry") r₁) λ _ r₂. bind (sign (codes "(") r₂) λ _ r₃.
      bind (identifier (ws_opt r₃)) λ _ r₄. bind (sign (codes ",") r₄) λ _ r₅.
        bind (srid (ws_opt r₅)) λ n r₆.
          bind (sign (codes ")") r₆)
            λ _ r₇. matched (PgScalarDataType.geometry (record { code = n })) r₇

-- An alternative for a type: a keyword, several with `ws()` between them, `character` with its length,
-- or a geometry.
pub data Alternative : Type 0 where
  keyword : Text → PgScalarDataType → Alternative
  keywords : Text → List Text → PgScalarDataType → Alternative
  character geometry_with_srid : Alternative

unfoldable pub alternative : Alternative → Text → Peg PgScalarDataType
unfolding i phrase length_limit geometry
alternative (keyword k ty) ts = bind (i k ts) λ _ r. matched ty r
alternative (keywords k ks ty) ts = bind (i k ts) λ _ r₁. bind (phrase ks r₁) λ _ r₂. matched ty r₂
alternative character ts =
    bind (i (codes "character") ts)
      λ _ r₁. bind (length_limit r₁) λ _ r₂. matched PgScalarDataType.text r₂
alternative geometry_with_srid ts = geometry ts

-- The alternatives in the grammar's order.
abbrev pub scalar_data_types : List Alternative
scalar_data_types =
    keyword (codes "bigint") PgScalarDataType.bigint
    ∷ keyword (codes "boolean") PgScalarDataType.boolean
    ∷ character
    ∷ keyword (codes "citext") PgScalarDataType.text
    ∷ keyword (codes "date") PgScalarDataType.date
    ∷ keywords (codes "double") (codes "precision" ∷ []) PgScalarDataType.double_precision
    ∷ keyword (codes "float") PgScalarDataType.double_precision
    ∷ geometry_with_srid
    ∷ keyword (codes "integer") PgScalarDataType.int
    ∷ keyword (codes "int") PgScalarDataType.int
    ∷ keyword (codes "jsonb") PgScalarDataType.jsonb
    ∷ keyword (codes "json") PgScalarDataType.json
    ∷ keyword (codes "numeric") PgScalarDataType.numeric
    ∷ keyword (codes "real") PgScalarDataType.real
    ∷ keyword (codes "smallint") PgScalarDataType.smallint
    ∷ keyword (codes "text") PgScalarDataType.text
    ∷ keywords (codes "timestamp") (codes "with" ∷ codes "time" ∷ codes "zone" ∷ [])
        PgScalarDataType.timestamp_with_time_zone
    ∷ keywords (codes "timestamp") (codes "without" ∷ codes "time" ∷ codes "zone" ∷ [])
        PgScalarDataType.timestamp_without_time_zone
    ∷ keyword (codes "timestamp") PgScalarDataType.timestamp_without_time_zone
    ∷ keyword (codes "uuid") PgScalarDataType.uuid
    ∷ []

unfoldable pub first_of : List Alternative → Text → Peg PgScalarDataType
unfolding alternative
first_of [] ts = failed
first_of (a ∷ rules) ts = orelse (alternative a ts) (first_of rules ts)

unfoldable pub scalar_data_type : Text → Peg PgScalarDataType
unfolding first_of
scalar_data_type ts = first_of scalar_data_types ts

unfoldable pub data_type : Text → Peg PgDataType
unfolding scalar_data_type literal ws_opt
data_type ts =
    orelse
      (bind (scalar_data_type ts) λ ty r₁.
        bind (sign (codes "[") r₁)
          λ _ r₂. bind (sign (codes "]") r₂) λ _ r₃. matched (array 1 ty) r₃)
      (bind (scalar_data_type ts) λ ty r. matched (scalar ty) r)

unfoldable pub is_nullable : Text → Peg Bool
unfolding phrase
is_nullable ts =
    orelse (bind (phrase (codes "NOT" ∷ codes "NULL" ∷ []) ts) λ _ r. matched false r)
      (matched true ts)

unfoldable pub primary_key : Text → Peg (Unit {0})
unfolding phrase
primary_key ts = phrase (codes "PRIMARY" ∷ codes "KEY" ∷ []) ts

unfoldable pub column : Text → Peg PgColumn
unfolding identifier ws data_type is_nullable primary_key
column ts = bind (identifier ts) λ name r₁. bind (ws r₁) λ _ r₂. bind (data_type r₂) λ ty r₃.
    bind (is_nullable r₃) λ nullable r₄.
      bind (optional primary_key r₄)
        λ _ r₅. matched (record { name = name; data_type = ty; is_nullable = nullable }) r₅

-- Columns behind the first, each after a comma.
unfoldable pub more_columns : ℕ → Text → Peg (List PgColumn)
unfolding literal ws_opt column
more_columns zero ts = out_of_fuel
more_columns (suc f) ts =
    orelse
      (bind (sign (codes ",") ts) λ _ r₁.
        bind (column (ws_opt r₁)) λ x r₂. bind (more_columns f r₂) λ xs r₃. matched (x ∷ xs) r₃)
      (matched [] ts)

-- `column() ** (ws()? "," ws()?)`.
unfoldable pub columns : Text → Peg (List PgColumn)
unfolding column more_columns
columns ts =
    orelse
      (bind (column ts)
        λ x r₁. bind (more_columns (suc (length r₁)) r₁) λ xs r₂. matched (x ∷ xs) r₂)
      (matched [] ts)

unfoldable pub table_name : Text → Peg TableName
unfolding identifier literal
table_name ts =
    orelse (bind (identifier ts) λ table r. matched (record { schema = none; table = table }) r) (
      bind (identifier ts) λ schema r₁. bind (literal (codes ".") r₁) λ _ r₂.
        bind (identifier r₂)
          λ table r₃. matched (record { schema = some schema; table = table }) r₃)

-- `ws()? (";" ws()?)?`, and the end of the input.
unfoldable pub closing : Text → Peg (Unit {0})
unfolding ws_opt literal
closing ts = bind (optional (literal (codes ";")) (ws_opt ts)) λ _ r. finish (matched tt (ws_opt r))

unfoldable pub parse : Text → Peg PgCreateTable
unfolding i ws ws_opt literal table_name columns closing
parse ts = bind (then_ws (i (codes "CREATE") (ws_opt ts))) λ _ r₁.
    bind (optional (λ r. then_ws (i (codes "UNLOGGED") r)) r₁) λ _ r₂.
      bind (then_ws (i (codes "TABLE") r₂)) λ _ r₃. bind (table_name r₃) λ name r₄.
        bind (sign (codes "(") r₄) λ _ r₅. bind (columns (ws_opt r₅)) λ cols r₆.
          bind (sign (codes ")") r₆) λ _ r₇. bind (closing r₇) λ _ r₈.
            matched
              (record { name = name; columns = cols; if_not_exists = false; temporary = false }) r₈
