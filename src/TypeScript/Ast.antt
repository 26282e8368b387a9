-- ===== src/TypeScript/Ast.antt =====
-- dbcrossbarlib/src/drivers/dbcrossbar_ts/ast.rs: the syntax tree and the table of definitions.
use dbcrossbar.Base.{Bool, List, [], ◌∷◌, Option, none, some, Text, text_eq}
use dbcrossbar.Base.{Result, ok, err, if◌then◌else◌}

-- `Type`, whose `TypeDetails` are its constructors. Identifiers are compared by their texts.
pub data Ty : Type 0 where
  any boolean date null number string : Ty
  array : Ty → Ty
  ref : Text → Ty
  union : Ty → Ty → Ty

pub record Field : Type 0 where
  pub name : Text
  pub optional : Bool
  pub ty : Ty

pub record Interface : Type 0 where
  pub name : Text
  pub fields : List Field

pub data Definition : Type 0 where
  interface : Interface → Definition
  type_alias : Text → Ty → Definition

pub data Statement : Type 0 where
  definition : Definition → Statement
  empty : Statement

-- What the messages of `ParseError` say, by the name that they are about.
pub data ParseError : Type 0 where
  syntax null_type union_type : ParseError
  duplicate_definition duplicate_field no_definition reserved not_interface : Text → ParseError

-- The `HashMap` of definitions, each under its key.
abbrev pub Definitions : Type 0
Definitions = List (Text × Definition)

unfoldable pub name : Definition → Text
name (interface i) = i.name
name (type_alias id ty) = id

-- `Statement::definition` under `filter_map`.
unfoldable pub definitions : List Statement → List Definition
definitions [] = []
definitions (definition d ∷ ss) = d ∷ definitions ss
definitions (empty ∷ ss) = definitions ss

unfoldable pub get : Text → Definitions → Option Definition
get id [] = none
get id ((k, d) ∷ ds) = if text_eq k id then some d else get id ds

-- `HashMap::insert`: the value that stood under the key, and the map with the new one.
unfoldable pub insert : Text → Definition → Definitions → Option Definition × Definitions
insert id d [] = (none, (id, d) ∷ [])
insert id d ((k, e) ∷ ds) =
    let (old, rest) = insert id d ds in
    if text_eq k id then (some e, (k, d) ∷ ds) else (old, (k, e) ∷ rest)

-- A second definition of a name is an error, otherwise the loop goes on with the new map.
abbrev pub continue_with :
    Text
    → Option Definition × Definitions
    → (Definitions → Result ParseError Definitions)
    → Result ParseError Definitions
continue_with n (some existing, seen) next = err (duplicate_definition n)
continue_with n (none, seen) next = next seen

-- The loop of `SourceFile::parse` that builds the map, from what it holds so far.
unfoldable pub collect : Definitions → List Definition → Result ParseError Definitions
unfolding insert name
collect seen [] = ok seen
collect seen (d ∷ ds) = continue_with (name d) (insert (name d) d seen) (λ seen'. collect seen' ds)

-- `Option::ok_or_else` with the error for an identifier.
abbrev pub found : Text → Option Definition → Result ParseError Definition
found id (some d) = ok d
found id none = err (no_definition id)

unfoldable pub definition_for_identifier : Definitions → Text → Result ParseError Definition
unfolding get
definition_for_identifier ds id = found id (get id ds)
