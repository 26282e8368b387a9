-- ===== src/Tests/TypeScript.antt =====
-- dbcrossbarlib/src/drivers/dbcrossbar_ts/ast.rs at the inputs of its own tests.
pub mod Locators
pub mod Files
use dbcrossbar.Base.{
  text_eq, Text, codes, ok, err, Bool, true, false, ◌≡◌, refl, ℕ, [], ◌∷◌, Result, none,
}
use dbcrossbar.Schema.{Table, DataType, Column}
use dbcrossbar.TypeScript.Ast.{definition_for_identifier, Definitions, ParseError}
use dbcrossbar.TypeScript.Grammar.{ty_at, parse}
use dbcrossbar.TypeScript.Convert.{definition_to_table, Outcome, returned, raised}

abbrev table_in : Result ParseError Definitions → ℕ → Text → Outcome Table
table_in (ok ds) f n = definition_to_table f ds n
table_in (err e) f n = raised e

abbrev column : Text → Bool → DataType → Column
column n nullable ty = record { name = n; is_nullable = nullable; data_type = ty; comment = none }

abbrev magic_source : Text
magic_source =
    codes
      "// These are magic.\ntype decimal = string; type int16 = number | string; /* two\nlines */\ninterface Magic { a: decimal, b?: int16[], c : string | null,  } ;"

abbrev magic_text : Text
magic_text =
    codes
      "// These are magic.\ntype decimal = string; type int16 = number | string; /* two\nlines */\ninterface Magic { a: decimal, b?: int16[], c: string | null,  } ;"

reads_magic :
    table_in (parse magic_text) 3 (codes "Magic")
    ≡ returned (record {
      name = codes "Magic";
      columns =
          column (codes "a") false DataType.decimal
          ∷ column (codes "b") true (DataType.array DataType.int16)
          ∷ column (codes "c") true DataType.text
          ∷ [];
    })
unfolding parse ty_at text_eq definition_for_identifier definition_to_table
reads_magic = refl

-- There is no blank before the colon.
blank_before_colon : parse magic_source ≡ err ParseError.syntax
unfolding parse ty_at
blank_before_colon = refl

rejects_invalid_magic :
    table_in
      (parse (codes "type int16 = boolean;\ninterface Example { f: int16, }"))
      3
      (codes "Example")
    ≡ raised (ParseError.reserved (codes "int16"))
unfolding parse ty_at text_eq definition_for_identifier definition_to_table
rejects_invalid_magic = refl

detects_duplicate_field :
    parse (codes "interface Point {\n    x: number,\n    x: number,\n};")
    ≡ err (ParseError.duplicate_field (codes "x"))
unfolding parse ty_at text_eq
detects_duplicate_field = refl

detects_duplicate_definition :
    parse (codes "type a = string; type a = number;")
    ≡ err (ParseError.duplicate_definition (codes "a"))
unfolding parse ty_at text_eq
detects_duplicate_definition = refl

dangling : parse (codes "type a = b;") ≡ err (ParseError.no_definition (codes "b"))
unfolding parse ty_at definition_for_identifier text_eq
dangling = refl

keyword_prefix :
    parse (codes "type datum = string; type t = datum; type stringy = string; type u = stringy;")
    ≡ err ParseError.syntax
unfolding parse ty_at
keyword_prefix = refl
