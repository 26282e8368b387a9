-- ===== src/Tests/BigQuery.antt =====
-- BigQuery's names, types, columns and tables at work.
pub mod Tables
pub mod Scripts
use dbcrossbar.Peg.Leaves.{Answers}
use dbcrossbar.Base.{
  ◌≡◌, ◌≢◌, refl, ◌↔◌, ◌⊎◌, Bool, true, false, not, ◌||◌, map, none, some, Option, Text, List, [],
  ◌∷◌, ◌++◌, codes, Result, ok, err,
}
use dbcrossbar.Schema.{DataType, StructFields}
use dbcrossbar.BigQuery.ColumnName.{
  ColumnName, try_from, as_str, as_lowercase, to_portable_name, name_eq, to_ascii_lowercase,
}
use dbcrossbar.BigQuery.ColumnName.Validity.{IsName, of_text, try_from-eq-ok_iff}
use dbcrossbar.BigQuery.ColumnName.Comparison.{name_eq-try_from_iff}
use dbcrossbar.BigQuery.Types.{
  BqDataType, BqNonArrayDataType, BqFields, array, non_array, stringified, struct, field, nil,
  display, final_table, csv_load,
}
use dbcrossbar.BigQuery.Grammar.{
  blanks, field_name, keyword, data_type, parse_data_type, parse_non_array_data_type,
  parse_record_or_non_array_data_type,
}
use dbcrossbar.Peg.{matched, failed, out_of_fuel, literal}
use dbcrossbar.BigQuery.Grammar.Spelling.{an_array, a_keyword, here}
use dbcrossbar.BigQuery.Grammar.Fuel.{parse_ends}
use dbcrossbar.BigQuery.Grammar.RoundTrip.{
  IsAnonymous, erase, parse_data_type-SpellsType, parse_data_type-display,
  parse_data_type-display_named,
}
use dbcrossbar.BigQuery.Convert.{find_duplicate, for_data_type, to_data_type}
use dbcrossbar.BigQuery.Convert.RoundTrip.{IsHeld, widen, to_data_type-for_data_type}
use dbcrossbar.BigQuery.Convert.CsvLoad.{IsScalar, for_data_type-csv_load}
use dbcrossbar.BigQuery.Align.{aligned_with}
use dbcrossbar.BigQuery.Align.Laws.{display-aligned_with, aligned_with_self}
use dbcrossbar.BigQuery.JsonSafe.{is_json_safe, IsNamed, is_json_safe_iff}

name_eq-try_from_iff_example :
    (name_eq (of_text (codes "aB")) (of_text (codes "Ab")) ≡ true)
    ↔ (map to_ascii_lowercase (codes "aB") ≡ map to_ascii_lowercase (codes "Ab"))
unfolding try_from
name_eq-try_from_iff_example =
    name_eq-try_from_iff (codes "aB") (codes "Ab") {n = of_text (codes "aB")}
      {m = of_text (codes "Ab")} refl refl

abbrev sample : Text
sample = codes "ARRAY<STRUCT<x INT64, FLOAT>>"

-- One of the source's own examples.
parsing_test :
    parse_data_type sample
    ≡ matched
        (array (
          struct (
            field
              (some (of_text (codes "x")))
              (non_array BqNonArrayDataType.int64)
              (field none (non_array BqNonArrayDataType.float64) nil))))
        []
unfolding parse_data_type data_type literal keyword field_name try_from blanks
parsing_test = refl

parse_ends_example :
    Answers (parse_data_type sample)
    × Answers (parse_non_array_data_type sample)
    × Answers (parse_record_or_non_array_data_type sample)
parse_ends_example = parse_ends sample

abbrev anonymous_struct : BqDataType
anonymous_struct = array (struct (field none (non_array (stringified DataType.uuid)) nil))

parse_data_type-display_example :
    parse_data_type (display anonymous_struct) ≡ matched (erase anonymous_struct) []
unfolding IsAnonymous
parse_data_type-display_example = parse_data_type-display anonymous_struct tt

parse_data_type-SpellsType_example :
    parse_data_type (codes "ARRAY<BOOLEAN>") ≡ matched (array BqNonArrayDataType.bool) []
parse_data_type-SpellsType_example =
    parse_data_type-SpellsType (array BqNonArrayDataType.bool) (codes "ARRAY<BOOLEAN>")
      (an_array (a_keyword here))

abbrev x : ColumnName
x = of_text (codes "x")

abbrev int64 : BqDataType
int64 = non_array BqNonArrayDataType.int64

parse_data_type-display_named_example :
    (parse_data_type (display (non_array (struct (field (some x) int64 nil)))) ≡ failed)
    × (parse_data_type (display (array (struct (field (some x) int64 nil)))) ≡ failed)
parse_data_type-display_named_example = parse_data_type-display_named x int64 nil

abbrev points : DataType
points =
    DataType.array
      (DataType.struct (StructFields.field (codes "x") false DataType.float32 StructFields.nil))

to_data_type-for_data_type_example :
    (b : BqDataType) × (for_data_type points final_table ≡ ok b)
    × (to_data_type b ≡ ok (widen points))
unfolding IsHeld find_duplicate
to_data_type-for_data_type_example =
    to_data_type-for_data_type points (tt, (((refl, refl), tt, tt), refl))

display-aligned_with_example :
    (display (non_array (stringified DataType.uuid))
      ≡ display (non_array BqNonArrayDataType.string))
    × (erase (non_array (stringified DataType.uuid)) ≡ erase (non_array BqNonArrayDataType.string))
unfolding aligned_with
display-aligned_with_example =
    display-aligned_with (non_array BqNonArrayDataType.string)
      (non_array (stringified DataType.uuid)) {c = non_array (stringified DataType.uuid)} refl

abbrev twice_x : BqDataType
twice_x = non_array (struct (field (some x) int64 (field (some x) int64 nil)))

-- Two fields of one name pass.
is_json_safe_test : is_json_safe twice_x ≡ true
unfolding is_json_safe
is_json_safe_test = refl

is_json_safe_iff_example : (is_json_safe twice_x ≡ true) ↔ IsNamed twice_x
is_json_safe_iff_example = is_json_safe_iff twice_x
