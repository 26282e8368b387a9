-- ===== src/BigQuery/Grammar/RoundTrip.antt =====
-- The types as they are written and read back.
use dbcrossbar.Base.{
  ◌≡◌, refl, Text, codes, [], ◌++◌, append-nil, suc, ℕ, some, none, ◌≤◌, ap, ◌-◌, arith,
}
use dbcrossbar.Separator
use dbcrossbar.Separator.{Separator}
use dbcrossbar.BigQuery.ColumnName.{ColumnName, quoted}
use dbcrossbar.BigQuery.Types.{
  BqDataType, BqNonArrayDataType, BqFields, array, non_array, struct, nil, field, stringified,
  display, display_non_array, display_fields,
}
use dbcrossbar.Peg.{matched, failed, literal, finish}
use dbcrossbar.BigQuery.Grammar.{parse_data_type, enough, data_type, keyword, field_name}
use dbcrossbar.Peg.Outcome.{Yields-matched}
use dbcrossbar.BigQuery.Grammar.Spelling.{
  SpellsType, Spells, SpellsFields, an_array, plain, a_keyword, a_struct, last, more, anonymous,
  here, later,
}
use dbcrossbar.BigQuery.Grammar.Keywords.{at_end}
use dbcrossbar.BigQuery.Grammar.Complete.{type_complete}
use dbcrossbar.BigQuery.Grammar.Fuel.{data_type-ne-out_of_fuel}

-- The parser accepts every spelling of a type and gives that type: each keyword and each synonym,
-- blanks behind the commas of a struct, fields with a name and fields without.
pub parse_data_type-SpellsType :
    (ty : BqDataType) (s : Text) → SpellsType ty s → parse_data_type s ≡ matched ty []
unfolding parse_data_type
parse_data_type-SpellsType ty s sp =
    let run = rw (append-nil s) at (type_complete sp at_end (enough s)) in
    rw (Yields-matched run (data_type-ne-out_of_fuel s))

-- What a type's text says of the type: that a string holds values of another type is not written.
unfoldable mutual
  pub erase : BqDataType → BqDataType
  erase (array ty) = array (erase_non_array ty)
  erase (non_array ty) = non_array (erase_non_array ty)

  pub erase_non_array : BqNonArrayDataType → BqNonArrayDataType
  erase_non_array (stringified _) = BqNonArrayDataType.string
  erase_non_array (struct fs) = struct (erase_fields fs)
  erase_non_array ty = ty

  pub erase_fields : BqFields → BqFields
  erase_fields nil = nil
  erase_fields (field name ty fs) = field name (erase ty) (erase_fields fs)

-- No struct within the type is empty or has a named field.
unfoldable mutual
  pub IsAnonymous : BqDataType → Type 0
  IsAnonymous (array ty) = IsAnonymousNonArray ty
  IsAnonymous (non_array ty) = IsAnonymousNonArray ty

  pub IsAnonymousNonArray : BqNonArrayDataType → Type 0
  IsAnonymousNonArray (struct fs) = IsAnonymousFields fs
  IsAnonymousNonArray _ = Unit

  pub IsAnonymousFields : BqFields → Type 0
  IsAnonymousFields nil = ⊥
  IsAnonymousFields (field none ty nil) = IsAnonymous ty
  IsAnonymousFields (field none ty (field name t fs)) =
      IsAnonymous ty × IsAnonymousFields (field name t fs)
  IsAnonymousFields (field (some _) ty fs) = ⊥

-- Of a type without names or empty structs, the text as it is displayed is a spelling of what the
-- text says of the type.
mutual
  unfolding display erase IsAnonymous

  display-Spells : (ty : BqDataType) → IsAnonymous ty → SpellsType (erase ty) (display ty)
  display-Spells (array ty) h = an_array (display_non_array-Spells ty h)
  display-Spells (non_array ty) h = plain (display_non_array-Spells ty h)

  display_non_array-Spells :
      (ty : BqNonArrayDataType)
      → IsAnonymousNonArray ty
      → Spells (erase_non_array ty) (display_non_array ty)
  display_non_array-Spells (struct fs) h = a_struct (display_fields-Spells fs h)
  display_non_array-Spells BqNonArrayDataType.bool h = a_keyword (later here)
  display_non_array-Spells _ h = a_keyword (search (here, later) depth 15)

  display_fields-Spells :
      (fs : BqFields)
      → IsAnonymousFields fs
      → SpellsFields (erase_fields fs) (display_fields fs (Separator.new (codes ",")))
  display_fields-Spells nil h = absurd h
  display_fields-Spells (field (some _) ty fs) h = absurd h
  display_fields-Spells (field none ty nil) h =
      rw (append-nil (display ty)) (last (anonymous (display-Spells ty h)))
  display_fields-Spells (field none ty (field name t fs)) h =
      more (anonymous (display-Spells ty h.0)) [] refl (display_fields-Spells (field name t fs) h.1)

-- What is displayed parses, for every type without named fields and empty structs: the result is
-- the type with each stringified type read as a plain `STRING`.
pub parse_data_type-display :
    (ty : BqDataType) → IsAnonymous ty → parse_data_type (display ty) ≡ matched (erase ty) []
parse_data_type-display ty h =
    parse_data_type-SpellsType (erase ty) (display ty) (display-Spells ty h)

-- No field begins with a backquote.
backquote_struct : (f : ℕ) (r : Text) → 6 ≤ f → data_type f (codes "STRUCT<`" ++ r) ≡ failed
unfolding data_type literal keyword field_name
backquote_struct f r h =
    let deep : f ≡ suc (suc (suc (suc (suc (suc (f - 6)))))) = omega arith in rw deep

backquote_array : (f : ℕ) (r : Text) → 6 ≤ f → data_type f (codes "ARRAY<STRUCT<`" ++ r) ≡ failed
unfolding data_type literal keyword field_name
backquote_array f r h =
    let deep : f ≡ suc (suc (suc (suc (suc (suc (f - 6)))))) = omega arith in rw deep

-- A name is displayed in backquotes, which the grammar has no rule for: no struct that begins with
-- a named field can be parsed from its own text, inside an array or outside.
pub parse_data_type-display_named :
    (n : ColumnName) (ty : BqDataType) (fs : BqFields)
    → (parse_data_type (display (non_array (struct (field (some n) ty fs)))) ≡ failed)
      × (parse_data_type (display (array (struct (field (some n) ty fs)))) ≡ failed)
unfolding parse_data_type display quoted
parse_data_type-display_named n ty fs =
    (ap finish (backquote_struct _ _ (omega arith)), ap finish (backquote_array _ _ (omega arith)))
