-- ===== src/Tests/TypeScript/Files.antt =====
-- The theorems on TypeScript schemas at files that a user may write.
use dbcrossbar.Peg.Leaves.{Answers}
use dbcrossbar.TypeScript.Convert.Visits.{is_convertible_definition, visits_definition}
use dbcrossbar.Base.{
  text_eq, ℕ, ◌<◌, Text, codes, ok, true, false, is_ok, ◌≡◌, ◌≢◌, refl, [], ◌∷◌, List, none, some,
  map, inl, arith, strip_prefix, if◌then◌else◌, All,
}
use dbcrossbar.Schema.{DataType}
use dbcrossbar.Peg.{failed}
use dbcrossbar.TypeScript.Ast.{name, Ty, Field, Interface, Definition, Definitions, Statement, get}
use dbcrossbar.TypeScript.Check.Collect.{entries}
use dbcrossbar.TypeScript.Grammar.{parse, statements, type_alias, keywords, ws_item, ws_opt}
use dbcrossbar.TypeScript.Grammar.Spelling.{
  Gap, nothing, blank, a_gap, here, later, word, a_ref, an_array, operand, marked, unmarked,
  a_field, no_more, one_more, some_fields, an_interface, an_alias, end, then_more, SpellsFile,
  a_file, IsFree,
}
use dbcrossbar.TypeScript.Parse.{parse-SpellsFile}
use dbcrossbar.TypeScript.Grammar.Fuel.{statements_end}
use dbcrossbar.TypeScript.Grammar.KeywordNames.{type_alias-keyword}
use dbcrossbar.TypeScript.Convert.{
  identifier_to_data_type, definition_to_table, returned, unfinished, to_possibly_optional_type,
}
use dbcrossbar.TypeScript.Convert.Laws.{definition_to_table-interface, AreColumnsFor}
use dbcrossbar.TypeScript.Convert.Termination.{
  IsRanked, IsConvertible, IsCyclic, identifier_to_data_type-ranked, identifier_to_data_type-total,
  identifier_to_data_type-cyclic, get-All,
}

space : Gap (codes " ")
space = blank 32 refl nothing

abbrev id_type : Definition
id_type = Definition.type_alias (codes "id") Ty.string

abbrev id_of : Field
id_of = record { name = codes "n"; optional = false; ty = Ty.ref (codes "id") }

abbrev ids_of : Field
ids_of = record { name = codes "m"; optional = true; ty = Ty.array (Ty.ref (codes "id")) }

abbrev row_type : Interface
row_type = record { name = codes "T"; fields = id_of ∷ ids_of ∷ [] }

abbrev file : List Definition
file = id_type ∷ Definition.interface row_type ∷ []

abbrev file_statements : List Statement
file_statements = map Statement.definition file

abbrev file_text : Text
file_text = codes "type id = string;\ninterface T { n: id, m?: id[] }"

id-IsFree : IsFree keywords (codes "id")
unfolding strip_prefix
id-IsFree = (refl, (refl, (refl, (refl, (refl, (refl, tt))))))

file_spelled : SpellsFile file_statements file_text
file_spelled = a_file nothing (
    then_more
      (an_alias (codes "id") (a_gap space) (refl, refl) space space
        (operand (word (later (later (later (later (later here))))))) nothing)
      (blank 10 refl nothing)
      (then_more
        (an_interface (codes "T") (a_gap space) (refl, refl) space space
          (some_fields
            (a_field (codes "n") (refl, refl) unmarked space
              (operand (a_ref (codes "id") (refl, refl) id-IsFree)))
            (one_more nothing space
              (a_field (codes "m") (refl, refl) (marked nothing) space
                (operand (an_array (a_ref (codes "id") (refl, refl) id-IsFree) nothing nothing)))
              no_more))
          space)
        nothing end))

parse-SpellsFile_example :
    (is_ok (parse file_text) ≡ true)
    × (is_ok (parse file_text) ≡ true → parse file_text ≡ ok (entries file))
unfolding dbcrossbar.TypeScript.Ast.definitions text_eq name
    dbcrossbar.TypeScript.Ast.definition_for_identifier
parse-SpellsFile_example = parse-SpellsFile file_statements file_text file_spelled

statements_end_example :
    Answers (statements (codes "type a = /* open")) × ((gap : Text) → ws_item (ws_opt gap) ≡ none)
statements_end_example = statements_end (codes "type a = /* open")

type_alias-keyword_example : type_alias (codes "type a = stringy;") ≡ failed
type_alias-keyword_example =
    type_alias-keyword (codes "a") (codes ";") b'y' (a_gap space) (refl, refl) space space
      (later (later (later (later (later here))))) refl

definition_to_table-interface_example :
    (codes "T" ≡ codes "T")
    × AreColumnsFor (identifier_to_data_type 1 (entries file)) row_type.fields (
        record { name = codes "n"; is_nullable = false; data_type = DataType.text; comment = none }
        ∷ record {
          name = codes "m";
          is_nullable = true;
          data_type = DataType.array DataType.text;
          comment = none;
        }
        ∷ [])
unfolding get text_eq name definition_to_table
definition_to_table-interface_example =
    definition_to_table-interface 1 (entries file) (codes "T") row_type _ refl refl

rank : Text → ℕ
rank n = if text_eq n (codes "T") then 1 else 0

file-IsRanked : IsRanked (entries file) rank
unfolding rank text_eq name dbcrossbar.TypeScript.Convert.magic to_possibly_optional_type
file-IsRanked n d e =
    get-All (λ k c. All (λ m. rank m < rank k) (visits_definition c)) (entries file) n
      (tt, ((omega arith, (omega arith, tt)), tt)) e

file-IsConvertible : IsConvertible (entries file)
unfolding get text_eq name dbcrossbar.TypeScript.Convert.magic to_possibly_optional_type
file-IsConvertible n d e =
    get-All
      (λ k c.
        (is_convertible_definition c ≡ true)
        × All (λ m. (b : Definition) × (get m (entries file) ≡ some b)) (visits_definition c))
      (entries file) n ((refl, tt), ((refl, ((_, refl), ((_, refl), tt))), tt)) e

identifier_to_data_type-ranked_example :
    identifier_to_data_type 2 (entries file) (codes "T") ≢ unfinished
identifier_to_data_type-ranked_example =
    identifier_to_data_type-ranked (entries file) rank file-IsRanked 2 (codes "T")
      (unfold rank text_eq in omega arith)

identifier_to_data_type-total_example :
    (ty : DataType) × (identifier_to_data_type 2 (entries file) (codes "T") ≡ returned ty)
unfolding rank text_eq get name
identifier_to_data_type-total_example =
    identifier_to_data_type-total (entries file) rank file-IsRanked file-IsConvertible 2 (codes "T")
      (Definition.interface row_type) (omega arith) refl

-- A tree, whose children are trees.
abbrev tree_type : Definition
tree_type = Definition.interface (record {
  name = codes "Tree";
  fields =
      record { name = codes "children"; optional = false; ty = Ty.array (Ty.ref (codes "Tree")) }
      ∷ [];
})

abbrev tree : List Definition
tree = tree_type ∷ []

tree-IsCyclic : IsCyclic (entries tree) (λ n. n ≡ codes "Tree")
unfolding get text_eq name to_possibly_optional_type
tree-IsCyclic n s = (tree_type, rw s, inl refl)

identifier_to_data_type-cyclic_example :
    ((ty : DataType) → identifier_to_data_type 100 (entries tree) (codes "Tree") ≢ returned ty)
    × (IsConvertible (entries tree)
        → identifier_to_data_type 100 (entries tree) (codes "Tree") ≡ unfinished)
identifier_to_data_type-cyclic_example =
    identifier_to_data_type-cyclic (entries tree) (λ n. n ≡ codes "Tree") tree-IsCyclic 100
      (codes "Tree") refl
