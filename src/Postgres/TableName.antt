-- ===== src/Postgres/TableName.antt =====
-- dbcrossbarlib/src/drivers/postgres_shared/mod.rs: `TableName`.
use dbcrossbar.Base.{
  ℕ, ◌≡◌, refl, false, ◌==◌, Option, none, some, Text, List, [], ◌∷◌, ◌++◌, any, if◌then◌else◌,
  Bool-cases, inl, inr, ==_iff, codes, arith,
}
use dbcrossbar.Postgres.Quote.{display_ident}

pub record TableName : Type 0 where
  pub schema : Option Text
  pub table : Text

abbrev pub dot : ℕ
dot = b'.'

abbrev pub add_first : ℕ → List Text → List Text
add_first c [] = []
add_first c (part ∷ parts) = (c ∷ part) ∷ parts

-- `s.splitn(2, '.')`: what is before the first dot, and what is after it.
unfoldable pub splitn : Text → List Text
splitn [] = [] ∷ []
splitn (c ∷ s) = let parts = splitn s in if c == dot then [] ∷ s ∷ [] else add_first c parts

-- The three branches on the number of the parts; the last is the error.
abbrev pub from_components : List Text → Option TableName
from_components (table ∷ []) = some (record { schema = none; table = table })
from_components (schema ∷ table ∷ []) = some (record { schema = some schema; table = table })
from_components _ = none

unfoldable pub from_str : Text → Option TableName
unfolding splitn
from_str s = from_components (splitn s)

abbrev pub unquoted_parts : Option Text → Text → Text
unquoted_parts (some schema) table = schema ++ dot ∷ table
unquoted_parts none table = table

unfoldable pub unquoted : TableName → Text
unquoted self = unquoted_parts self.schema self.table

abbrev pub quoted_parts : Option Text → Text → Text
quoted_parts (some schema) table = display_ident schema ++ dot ∷ display_ident table
quoted_parts none table = display_ident table

-- The text of `quoted`.
unfoldable pub quoted : TableName → Text
unfolding display_ident
quoted self = quoted_parts self.schema self.table

-- With the tag that the source draws at random.
unfoldable pub temporary_table_name : TableName → Text → TableName
temporary_table_name self random_tag = record {
  schema = none;
  table = self.table ++ codes "_temp_" ++ random_tag;
}

-- A text without dots.
abbrev pub HasNoDot : Text → Type 0
HasNoDot s = any (λ c. c == dot) s ≡ false

-- Where a text is split.
pub data Split : Text → List Text → Type 0 where
  whole : {s : Text} → HasNoDot s → Split s (s ∷ [])
  at_dot : (s t : Text) → HasNoDot s → Split (s ++ dot ∷ t) (s ∷ t ∷ [])

Split-cons :
    (c : ℕ) {s : Text} {parts : List Text}
    → (c == dot) ≡ false
    → Split s parts
    → Split (c ∷ s) (add_first c parts)
Split-cons c h (whole n) = whole (rw h n)
Split-cons c h (at_dot s t n) = at_dot (c ∷ s) t (rw h n)

splitn-Split : (s : Text) → Split s (splitn s)
unfolding splitn
splitn-Split [] = whole refl
splitn-Split (c ∷ s) = elim (Bool-cases (c == dot)) [
  | inl same ↦ rw ((==_iff c dot).0 same) (at_dot [] s refl)
  | inr other ↦ rw other (Split-cons c other (splitn-Split s))
]

-- The name that a split text is.
abbrev Reads : Text → List Text → Type 0
Reads s parts = (name : TableName) × (from_components parts ≡ some name) × (unquoted name ≡ s)

Split-Reads : {s : Text} {parts : List Text} → Split s parts → Reads s parts
unfolding unquoted
Split-Reads (whole {s} n) = (record { schema = none; table = s }, refl, refl)
Split-Reads (at_dot s t n) = (record { schema = some s; table = t }, refl, refl)

-- Every text is read as a table name, and the name is written as that text again.
pub unquoted-from_str :
    (s : Text) → (name : TableName) × (from_str s ≡ some name) × (unquoted name ≡ s)
unfolding from_str
unquoted-from_str s = Split-Reads (splitn-Split s)

splitn-HasNoDot : (s : Text) → HasNoDot s → splitn s ≡ s ∷ []
unfolding splitn
splitn-HasNoDot [] n = refl
splitn-HasNoDot (c ∷ s) n = elim (Bool-cases (c == dot)) [
  | inl same ↦ ground arith
  | inr other ↦ rw other (rw (splitn-HasNoDot s (ground arith)))
]

splitn-dot : (s t : Text) → HasNoDot s → splitn (s ++ dot ∷ t) ≡ s ∷ t ∷ []
unfolding splitn
splitn-dot [] t n = refl
splitn-dot (c ∷ s) t n = elim (Bool-cases (c == dot)) [
  | inl same ↦ ground arith
  | inr other ↦ rw other (rw (splitn-dot s t (ground arith)))
]

-- The part of a name that is written first has no dot.
abbrev pub IsReadable : TableName → Type 0
IsReadable name = elim name.schema [ some schema ↦ HasNoDot schema | none ↦ HasNoDot name.table ]

readable_from_str :
    (schema : Option Text) (table : Text)
    → IsReadable (record { schema = schema; table = table })
    → from_str (unquoted_parts schema table) ≡ some (record { schema = schema; table = table })
unfolding from_str
readable_from_str (some schema) table n = rw (splitn-dot schema table n)
readable_from_str none table n = rw (splitn-HasNoDot table n)

-- A name whose schema has no dot, or which has no schema and no dot, is written as a text that is
-- read as this name.
pub from_str-unquoted : (name : TableName) → IsReadable name → from_str (unquoted name) ≡ some name
unfolding unquoted
from_str-unquoted name n = readable_from_str name.schema name.table n
