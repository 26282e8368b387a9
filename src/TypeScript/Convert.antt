-- ===== src/TypeScript/Convert.antt =====
-- dbcrossbarlib/src/drivers/dbcrossbar_ts/ast.rs: `ToDataType`, from definitions to portable types.
pub mod Visits
pub mod Laws
pub mod Termination
use dbcrossbar.Base.{
  ℕ, zero, suc, Bool, true, false, ◌||◌, List, [], ◌∷◌, Option, none, Text, text_eq, codes, ◌&&◌,
  some,
}
use dbcrossbar.Base.{Result, ok, err, if◌then◌else◌}
use dbcrossbar.Schema.{DataType, StructFields, Column, Table, nil, field}
use dbcrossbar.TypeScript.Ast.{
  Ty, Field, Definition, Definitions, ParseError, definition_for_identifier,
}

-- `unfinished`: the recursion goes deeper than the fuel, which the program has no bound for.
pub data Outcome (A : Type 0) : Type 0 where
  returned : A → Outcome A
  raised : ParseError → Outcome A
  unfinished : Outcome A

infixl 5 ◌>>=◌
abbrev pub ◌>>=◌ : {A B : Type 0} → Outcome A → (A → Outcome B) → Outcome B
returned a >>= k = k a
raised e >>= k = raised e
unfinished >>= k = unfinished

abbrev pub lift : {A : Type 0} → Result ParseError A → Outcome A
lift (ok a) = returned a
lift (err e) = raised e

unfoldable pub is_sql_null : Ty → Bool
is_sql_null Ty.null = true
is_sql_null _ = false

unfoldable pub is_string : Ty → Bool
is_string Ty.string = true
is_string _ = false

unfoldable pub is_number : Ty → Bool
is_number Ty.number = true
is_number _ = false

unfoldable pub to_possibly_optional_type : Ty → Bool × Ty
unfolding is_sql_null
to_possibly_optional_type (Ty.union t u) =
    if is_sql_null u then (true, t) else if is_sql_null t then (true, u) else (false, Ty.union t u)
to_possibly_optional_type t = (false, t)

-- Is this `number`, `string` or their union, in either order?
unfoldable pub expect_string_and_or_number_type : Ty → Text → Outcome (Unit {0})
unfolding is_string is_number
expect_string_and_or_number_type Ty.number id = returned tt
expect_string_and_or_number_type Ty.string id = returned tt
expect_string_and_or_number_type (Ty.union t u) id =
    if is_string t && is_number u
    then returned tt
    else if is_number t && is_string u
    then returned tt
    else raised (ParseError.reserved id)
expect_string_and_or_number_type _ id = raised (ParseError.reserved id)

-- The names whose aliases are converted to a type of their own.
unfoldable pub magic : Text → Option DataType
magic id =
    if text_eq id (codes "decimal")
    then some DataType.decimal
    else if text_eq id (codes "int16")
    then some DataType.int16
    else if text_eq id (codes "int32")
    then some DataType.int32
    else if text_eq id (codes "int64")
    then some DataType.int64
    else none

module _ (lookup : Text → Outcome DataType) where
  -- `Type::to_data_type`, over the conversion of identifiers.
  unfoldable pub ty_to_data_type : Ty → Outcome DataType
  ty_to_data_type Ty.any = returned DataType.json
  ty_to_data_type (Ty.array t) = ty_to_data_type t >>= λ elem. returned (DataType.array elem)
  ty_to_data_type Ty.boolean = returned DataType.bool
  ty_to_data_type Ty.date = returned DataType.timestamp_with_time_zone
  ty_to_data_type Ty.null = raised ParseError.null_type
  ty_to_data_type Ty.number = returned DataType.float64
  ty_to_data_type (Ty.ref id) = lookup id
  ty_to_data_type Ty.string = returned DataType.text
  ty_to_data_type (Ty.union _ _) = raised ParseError.union_type

  unfoldable pub fields_to_struct : List Field → Outcome StructFields
  unfolding ty_to_data_type to_possibly_optional_type
  fields_to_struct [] = returned nil
  fields_to_struct (f ∷ fs) = do
    let (optional, ty) = to_possibly_optional_type f.ty
    data_type ← ty_to_data_type ty
    rest ← fields_to_struct fs
    returned (field f.name (f.optional || optional) data_type rest)

  unfoldable pub alias_to_data_type : Option DataType → Text → Ty → Outcome DataType
  unfolding ty_to_data_type expect_string_and_or_number_type
  alias_to_data_type (some special) id ty =
      expect_string_and_or_number_type ty id >>= λ _. returned special
  alias_to_data_type none id ty = ty_to_data_type ty

  unfoldable pub definition_to_data_type : Definition → Outcome DataType
  unfolding fields_to_struct alias_to_data_type magic
  definition_to_data_type (Definition.interface i) =
      fields_to_struct i.fields >>= λ fs. returned (DataType.struct fs)
  definition_to_data_type (Definition.type_alias id ty) = alias_to_data_type (magic id) id ty

unfoldable pub identifier_to_data_type : ℕ → Definitions → Text → Outcome DataType
unfolding definition_to_data_type definition_for_identifier
identifier_to_data_type zero ds id = unfinished
identifier_to_data_type (suc f) ds id =
    lift (definition_for_identifier ds id)
    >>= definition_to_data_type (identifier_to_data_type f ds)

unfoldable pub columns : StructFields → List Column
columns nil = []
columns (field n nullable ty fs) =
    record { name = n; is_nullable = nullable; data_type = ty; comment = none } ∷ columns fs

unfoldable pub table_of : Text → DataType → Outcome Table
unfolding columns
table_of n (DataType.struct fs) = returned (record { name = n; columns = columns fs })
table_of n _ = raised (ParseError.not_interface n)

-- `definition` reports an undefined name with an error of its own, here `no_definition` too.
unfoldable pub definition_to_table : ℕ → Definitions → Text → Outcome Table
unfolding identifier_to_data_type table_of
definition_to_table f ds n = identifier_to_data_type f ds n >>= table_of n
