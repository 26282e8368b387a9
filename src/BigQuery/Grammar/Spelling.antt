-- ===== src/BigQuery/Grammar/Spelling.antt =====
-- How a BigQuery type may be written, as a relation that knows nothing of the parser: the keywords
-- and their synonyms, blanks behind the commas, and names that a field may have.
use dbcrossbar.Base.{
  ◌≡◌, true, Option, none, some, Text, codes, ◌∷◌, ◌++◌, List, [], ◌==◌, ◌||◌, all,
}
use dbcrossbar.BigQuery.ColumnName.{ColumnName}
use dbcrossbar.BigQuery.ColumnName.Validity.{IsName, of_text}
use dbcrossbar.BigQuery.Types.{
  BqDataType, BqNonArrayDataType, BqFields, array, non_array, struct, nil, field,
}

-- The names and the synonyms of the types that are no arrays and no structs.
abbrev pub type_names : List (Text × BqNonArrayDataType)
type_names =
    (codes "BOOLEAN", BqNonArrayDataType.bool)
    ∷ (codes "BOOL", BqNonArrayDataType.bool)
    ∷ (codes "BYTES", BqNonArrayDataType.bytes)
    ∷ (codes "DATETIME", BqNonArrayDataType.datetime)
    ∷ (codes "DATE", BqNonArrayDataType.date)
    ∷ (codes "FLOAT64", BqNonArrayDataType.float64)
    ∷ (codes "FLOAT", BqNonArrayDataType.float64)
    ∷ (codes "GEOGRAPHY", BqNonArrayDataType.geography)
    ∷ (codes "INT64", BqNonArrayDataType.int64)
    ∷ (codes "INTEGER", BqNonArrayDataType.int64)
    ∷ (codes "NUMERIC", BqNonArrayDataType.numeric)
    ∷ (codes "STRING", BqNonArrayDataType.string)
    ∷ (codes "TIMESTAMP", BqNonArrayDataType.timestamp)
    ∷ (codes "TIME", BqNonArrayDataType.time)
    ∷ []

-- The keyword stands in the list.
pub data Listed (e : Text × BqNonArrayDataType) : List (Text × BqNonArrayDataType) → Type 0 where
  here : {es : List (Text × BqNonArrayDataType)} → Listed e (e ∷ es)
  later :
      {d : Text × BqNonArrayDataType} {es : List (Text × BqNonArrayDataType)}
      → Listed e es
      → Listed e (d ∷ es)

-- Nothing but spaces, tabs, carriage returns and line feeds.
abbrev pub IsBlank : Text → Type 0
IsBlank w = all (λ c. c == 32 || (c == 9 || (c == 13 || c == 10))) w ≡ true

mutual
  pub data SpellsType : BqDataType → Text → Type 0 where
    an_array :
        {ty : BqNonArrayDataType} {s : Text}
        → Spells ty s
        → SpellsType (array ty) (codes "ARRAY<" ++ (s ++ codes ">"))
    plain : {ty : BqNonArrayDataType} {s : Text} → Spells ty s → SpellsType (non_array ty) s

  pub data Spells : BqNonArrayDataType → Text → Type 0 where
    a_keyword : {ty : BqNonArrayDataType} {k : Text} → Listed (k, ty) type_names → Spells ty k
    a_struct :
        {fs : BqFields} {s : Text}
        → SpellsFields fs s
        → Spells (struct fs) (codes "STRUCT<" ++ (s ++ codes ">"))

  pub data SpellsFields : BqFields → Text → Type 0 where
    last :
        {name : Option ColumnName} {ty : BqDataType} {s : Text}
        → SpellsField name ty s
        → SpellsFields (field name ty nil) s
    more :
        {name : Option ColumnName} {ty : BqDataType} {fs : BqFields} {s s' : Text}
        → SpellsField name ty s
        → (w : Text) → IsBlank w
        → SpellsFields fs s'
        → SpellsFields (field name ty fs) (s ++ (codes "," ++ (w ++ s')))

  pub data SpellsField : Option ColumnName → BqDataType → Text → Type 0 where
    named :
        {ty : BqDataType} {s : Text}
        → (x : Text) → IsName x
        → (b : _) → (w : Text) → IsBlank (b ∷ w)
        → SpellsType ty s
        → SpellsField (some (of_text x)) ty (x ++ (b ∷ w ++ s))
    anonymous : {ty : BqDataType} {s : Text} → SpellsType ty s → SpellsField none ty s
