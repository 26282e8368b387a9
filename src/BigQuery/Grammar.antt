-- ===== src/BigQuery/Grammar.antt =====
-- dbcrossbarlib/src/drivers/bigquery_shared/data_type/grammar.rs: the parsing expression grammar of
-- type names.
pub mod Spelling
pub mod Names
pub mod Fuel
pub mod Keywords
pub mod Complete
pub mod RoundTrip
use dbcrossbar.Base.{
  ℕ, zero, suc, ◌+◌, ◌*◌, Bool, ◌||◌, List, [], ◌∷◌, ◌++◌, Option, none, some, Text, codes, ◌==◌,
  strip_prefix, length, Result, ok, err, if◌then◌else◌,
}
use dbcrossbar.Peg.{
  Peg, matched, failed, panicked, out_of_fuel, bind, orelse, span, literal, finish,
}
use dbcrossbar.BigQuery.ColumnName.{
  ColumnName, is_ascii_alphabetic, is_ascii_alphanumeric, try_from, NameError,
}
use dbcrossbar.BigQuery.Types.{
  BqDataType, BqNonArrayDataType, BqFields, BqRecordOrNonArrayDataType, array, non_array, struct,
  nil, field, record_type, data_type as plain_type,
}

abbrev pub is_name_start : ℕ → Bool
is_name_start c = c == b'_' || is_ascii_alphabetic c

abbrev pub is_name_part : ℕ → Bool
is_name_part c = c == b'_' || is_ascii_alphanumeric c

-- `name.parse::<ColumnName>().expect(…)`.
abbrev pub expect : Result NameError ColumnName → Text → Peg ColumnName
expect (ok n) rest = matched n rest
expect (err _) rest = panicked

unfoldable pub field_name : Text → Peg ColumnName
unfolding span
field_name [] = failed
field_name (c ∷ ts) =
    if is_name_start c
    then (let (xs, rest) = span is_name_part ts in expect (try_from (c ∷ xs)) rest)
    else failed

abbrev pub is_blank : ℕ → Bool
is_blank c = c == 32 || (c == 9 || (c == 13 || c == 10))

-- `ws()?`, which always matches.
unfoldable pub blanks : Text → Text
unfolding span
blanks ts = (span is_blank ts).1

-- The alternatives of `non_array_data_type` before `struct()`, in the grammar's order.
abbrev pub keywords : List (Text × BqNonArrayDataType)
keywords =
    (codes "BOOLEAN", BqNonArrayDataType.bool)
    ∷ (codes "BOOL", BqNonArrayDataType.bool)
    ∷ (codes "BYTES", BqNonArrayDataType.bytes)
    ∷ (codes "DATETIME", BqNonArrayDataType.datetime)
    ∷ (codes "DATE", BqNonArrayDataType.date)
    ∷ (codes "FLOAT64", BqNonArrayDataType.float64)
    ∷ (codes "FLOAT", BqNonArrayDataType.float64)
    ∷ (codes "GEOGRAPHY", BqNonArrayDataType.geography)
    ∷ (codes "INT64", BqNonArrayDataType.int64)
    ∷ (codes "INTEGER", BqNonArrayDataType.int64)
    ∷ (codes "NUMERIC", BqNonArrayDataType.numeric)
    ∷ (codes "STRING", BqNonArrayDataType.string)
    ∷ (codes "TIMESTAMP", BqNonArrayDataType.timestamp)
    ∷ (codes "TIME", BqNonArrayDataType.time)
    ∷ []

unfoldable pub keyword : List (Text × BqNonArrayDataType) → Text → Peg BqNonArrayDataType
unfolding literal
keyword [] ts = failed
keyword ((k, ty) ∷ ks) ts = orelse (bind (literal k ts) λ _ rest. matched ty rest) (keyword ks ts)

-- The first alternative of `field()`, over the rule for types.
abbrev pub after_name : (Text → Peg BqDataType) → Text → Peg (Option ColumnName × BqDataType)
after_name ty_rule ts =
    bind (field_name ts) λ name r₁. bind (ty_rule (blanks r₁)) λ ty r₂. matched (some name, ty) r₂

-- The recursive rules, on fuel.
unfoldable mutual
  pub data_type : ℕ → Text → Peg BqDataType
  data_type zero ts = out_of_fuel
  data_type (suc f) ts =
      orelse
        (bind (literal (codes "ARRAY<") ts) λ _ r₁.
          bind (non_array_data_type f r₁)
            λ ty r₂. bind (literal (codes ">") r₂) λ _ r₃. matched (array ty) r₃)
        (bind (non_array_data_type f ts) λ ty r. matched (non_array ty) r)

  pub non_array_data_type : ℕ → Text → Peg BqNonArrayDataType
  non_array_data_type zero ts = out_of_fuel
  non_array_data_type (suc f) ts = orelse (keyword keywords ts) (
      bind (literal (codes "STRUCT<") ts) λ _ r₁.
        bind (fields f r₁) λ fs r₂. bind (literal (codes ">") r₂) λ _ r₃. matched (struct fs) r₃)

  -- `field() ++ ("," ws()?)`: one field, then as many more as follow.
  pub fields : ℕ → Text → Peg BqFields
  fields zero ts = out_of_fuel
  fields (suc f) ts =
      bind (one_field f ts)
        λ (name, ty) r₁. bind (more_fields f r₁) λ fs r₂. matched (field name ty fs) r₂

  pub more_fields : ℕ → Text → Peg BqFields
  more_fields zero ts = out_of_fuel
  more_fields (suc f) ts =
      orelse
        (bind (literal (codes ",") ts) λ _ r₁.
          bind (one_field f (blanks r₁))
            λ (name, ty) r₂. bind (more_fields f r₂) λ fs r₃. matched (field name ty fs) r₃)
        (matched nil ts)

  -- `field()`.
  pub one_field : ℕ → Text → Peg (Option ColumnName × BqDataType)
  one_field zero ts = out_of_fuel
  one_field (suc f) ts =
      orelse (after_name (data_type f) ts) (bind (data_type f ts) λ ty r. matched (none, ty) r)

abbrev pub enough : Text → ℕ
enough ts = 4 * length ts + 5

unfoldable pub parse_data_type : Text → Peg BqDataType
parse_data_type ts = finish (data_type (enough ts) ts)

unfoldable pub parse_non_array_data_type : Text → Peg BqNonArrayDataType
parse_non_array_data_type ts = finish (non_array_data_type (enough ts) ts)

unfoldable pub parse_record_or_non_array_data_type : Text → Peg BqRecordOrNonArrayDataType
unfolding literal
parse_record_or_non_array_data_type ts = finish (
    orelse (bind (literal (codes "RECORD") ts) λ _ r. matched record_type r)
      (bind (non_array_data_type (enough ts) ts) λ ty r. matched (plain_type ty) r))
