-- ===== src/TypeScript/Grammar.antt =====
-- dbcrossbarlib/src/drivers/dbcrossbar_ts/ast.rs: the parsing expression grammar `typescript_grammar`,
-- and `SourceFile::parse`, which runs it and checks what it finds.
pub mod KeywordNames
pub mod Statements
pub mod Fields
pub mod Operators
pub mod Types
pub mod Spelling
pub mod Gaps
pub mod Fuel
pub mod TypeEnds
pub mod Blanks
use dbcrossbar.Base.{
  ℕ, zero, suc, Bool, true, false, List, [], ◌∷◌, Option, none, some, Text, codes, length, ◌==◌,
  strip_prefix, if◌then◌else◌, map,
}
use dbcrossbar.Base.{Result, ok, err, ◌>>=◌}
use dbcrossbar.Peg.Repeats.{star}
use dbcrossbar.Peg.{
  Peg, matched, failed, panicked, out_of_fuel, bind, orelse, literal, span, finish,
}
use dbcrossbar.BigQuery.Grammar.{is_name_start, is_name_part, is_blank}
use dbcrossbar.TypeScript.Ast.{
  Ty, Field, Interface, Definition, Statement, Definitions, ParseError, definitions, collect,
}
use dbcrossbar.TypeScript.Check.{check_all}

-- The rest of a line comment: up to the end of the line, or of the file.
unfoldable pub skip_line : Text → Text
skip_line [] = []
skip_line (c ∷ ts) = let rest = skip_line ts in if c == 10 then ts else rest

abbrev pub first_of : Option Text → Option Text → Option Text
first_of (some rest) later = some rest
first_of none later = later

-- The rest of a block comment, which has to be closed.
unfoldable pub skip_block : Text → Option Text
unfolding strip_prefix
skip_block [] = none
skip_block (c ∷ ts) =
    let later = skip_block ts in first_of (strip_prefix (codes "*/") (c ∷ ts)) later

abbrev pub line_comment : Option Text → Option Text
line_comment (some rest) = some (skip_line rest)
line_comment none = none

abbrev pub block_comment : Option Text → Option Text
block_comment (some rest) = skip_block rest
block_comment none = none

-- One blank or one comment.
unfoldable pub ws_item : Text → Option Text
unfolding skip_line skip_block strip_prefix
ws_item [] = none
ws_item (c ∷ ts) =
    if is_blank c
    then some ts
    else first_of (line_comment (strip_prefix (codes "//") (c ∷ ts)))
        (block_comment (strip_prefix (codes "/*") (c ∷ ts)))

-- `ws()?`, which always matches. Each item takes a character at least.
unfoldable pub ws_opt : Text → Text
unfolding ws_item star
ws_opt ts = star ws_item (length ts) ts

abbrev pub or_fail : Option Text → Peg (Unit {0})
or_fail none = failed
or_fail (some rest) = matched tt (ws_opt rest)

-- `ws()`.
unfoldable pub ws : Text → Peg (Unit {0})
unfolding ws_item ws_opt
ws ts = or_fail (ws_item ts)

unfoldable pub identifier : Text → Peg Text
unfolding span
identifier [] = failed
identifier (c ∷ ts) =
    let (xs, rest) = span is_name_part ts in
    if is_name_start c then matched (c ∷ xs) rest else failed

-- The alternatives of `ty` before `identifier`, in the grammar's order.
abbrev pub keywords : List (Text × Ty)
keywords =
    (codes "any", Ty.any)
    ∷ (codes "boolean", Ty.boolean)
    ∷ (codes "Date", Ty.date)
    ∷ (codes "null", Ty.null)
    ∷ (codes "number", Ty.number)
    ∷ (codes "string", Ty.string)
    ∷ []

unfoldable pub keyword : List (Text × Ty) → Text → Peg Ty
unfolding literal
keyword [] ts = failed
keyword ((k, t) ∷ ks) ts = orelse (bind (literal k ts) λ _ rest. matched t rest) (keyword ks ts)

unfoldable pub atom : Text → Peg Ty
unfolding keyword identifier
atom ts = orelse (keyword keywords ts) (bind (identifier ts) λ id rest. matched (Ty.ref id) rest)

-- `elem:@ ws()? "[" ws()? "]"`, behind an element.
unfoldable pub array_suffix : Ty → Text → Peg Ty
unfolding ws_opt literal
array_suffix left ts =
    bind (literal (codes "[") (ws_opt ts))
      λ _ r. bind (literal (codes "]") (ws_opt r)) λ _ r'. matched (Ty.array left) r'

-- `left:(@) ws()? "|" ws()? right:@`, behind the left side, over the rule for the right one.
unfoldable pub union_suffix : (Text → Peg Ty) → ℕ → Ty → Text → Peg Ty
unfolding ws_opt literal
union_suffix right_rule zero left ts =
    bind (literal (codes "|") (ws_opt ts))
      λ _ r. bind (right_rule (ws_opt r)) λ right r'. matched (Ty.union left right) r'
union_suffix right_rule (suc level) left ts = failed

-- `precedence!`: an operand, and then operators as long as they bind at least as tightly as `level`.
-- A union is of level 0, its right side of level 1, so that it associates to the left; an array is of
-- level 1.
unfoldable mutual
  unfolding atom union_suffix array_suffix

  pub ty_at : ℕ → ℕ → Text → Peg Ty
  ty_at zero level ts = out_of_fuel
  ty_at (suc f) level ts = bind (atom ts) λ left r. operators f level left r

  pub operators : ℕ → ℕ → Ty → Text → Peg Ty
  operators zero level left ts = out_of_fuel
  operators (suc f) level left ts =
      orelse
        (bind (orelse (union_suffix (ty_at f 1) level left ts) (array_suffix left ts))
          λ larger r. operators f level larger r)
        (matched left ts)

-- `ty()`: each round takes a character at least.
unfoldable pub ty : Text → Peg Ty
ty ts = ty_at (suc (length ts)) 0 ts

unfoldable pub optional_mark : Text → Peg Bool
unfolding ws_opt literal
optional_mark ts =
    orelse (bind (literal (codes "?") (ws_opt ts)) λ _ r. matched true r) (matched false ts)

unfoldable pub field : Text → Peg Field
unfolding identifier optional_mark literal ws_opt ty
field ts = bind (identifier ts) λ name r₁. bind (optional_mark r₁) λ optional r₂.
    bind (literal (codes ":") r₂) λ _ r₃.
      bind (ty (ws_opt r₃)) λ t r₄. matched (record { name = name; optional = optional; ty = t }) r₄

-- Fields behind the first, each after a comma.
unfoldable pub more_fields : ℕ → Text → Peg (List Field)
unfolding literal ws_opt field
more_fields zero ts = out_of_fuel
more_fields (suc f) ts =
    orelse
      (bind (literal (codes ",") (ws_opt ts)) λ _ r₁.
        bind (field (ws_opt r₁)) λ x r₂. bind (more_fields f r₂) λ xs r₃. matched (x ∷ xs) r₃)
      (matched [] ts)

abbrev pub after_match : Peg (Unit {0}) → Text → Text
after_match (matched _ rest) ts = rest
after_match failed ts = ts
after_match panicked ts = ts
after_match out_of_fuel ts = ts

-- `(ws()? ",")?`.
unfoldable pub trailing_comma : Text → Text
unfolding literal ws_opt
trailing_comma ts = after_match (literal (codes ",") (ws_opt ts)) ts

unfoldable pub fields : Text → Peg (List Field)
unfolding field more_fields trailing_comma
fields ts =
    bind
      (orelse
        (bind (field ts)
          λ x r₁. bind (more_fields (suc (length r₁)) r₁) λ xs r₂. matched (x ∷ xs) r₂)
        (matched [] ts))
      λ fs r. matched fs (trailing_comma r)

unfoldable pub interface : Text → Peg Interface
unfolding literal ws ws_opt identifier fields
interface ts = bind (literal (codes "interface") ts) λ _ r₁. bind (ws r₁) λ _ r₂.
    bind (identifier r₂) λ name r₃. bind (literal (codes "{") (ws_opt r₃)) λ _ r₄.
      bind (fields (ws_opt r₄)) λ fs r₅.
        bind (literal (codes "}") (ws_opt r₅))
          λ _ r₆. matched (record { name = name; fields = fs }) r₆

unfoldable pub type_alias : Text → Peg Definition
unfolding literal ws ws_opt identifier ty
type_alias ts = bind (literal (codes "type") ts) λ _ r₁. bind (ws r₁) λ _ r₂.
    bind (identifier r₂) λ name r₃. bind (literal (codes "=") (ws_opt r₃)) λ _ r₄.
      bind (ty (ws_opt r₄)) λ t r₅.
        bind (literal (codes ";") (ws_opt r₅)) λ _ r₆. matched (Definition.type_alias name t) r₆

unfoldable pub definition : Text → Peg Definition
unfolding interface type_alias
definition ts =
    orelse (bind (interface ts) λ i r. matched (Definition.interface i) r) (type_alias ts)

unfoldable pub statement : Text → Peg Statement
unfolding definition literal
statement ts =
    orelse (bind (definition ts) λ d r. matched (Statement.definition d) r)
      (bind (literal (codes ";") ts) λ _ r. matched Statement.empty r)

-- `statement() ** (ws()?)` behind the first.
unfoldable pub more_statements : ℕ → Text → Peg (List Statement)
unfolding statement ws_opt
more_statements zero ts = out_of_fuel
more_statements (suc f) ts =
    orelse
      (bind (statement (ws_opt ts))
        λ s r₁. bind (more_statements f r₁) λ ss r₂. matched (s ∷ ss) r₂)
      (matched [] ts)

unfoldable pub statements : Text → Peg (List Statement)
unfolding statement more_statements ws_opt
statements ts =
    bind
      (orelse
        (bind (statement (ws_opt ts))
          λ s r₁. bind (more_statements (suc (length r₁)) r₁) λ ss r₂. matched (s ∷ ss) r₂)
        (matched [] (ws_opt ts)))
      λ ss r. finish (matched ss (ws_opt r))

-- No action of this grammar panics, and the fuel is enough.
abbrev pub of_peg : Peg (List Statement) → Result ParseError (List Statement)
of_peg (matched ss _) = ok ss
of_peg failed = err ParseError.syntax
of_peg panicked = err ParseError.syntax
of_peg out_of_fuel = err ParseError.syntax

-- The check of every value of the map, which then is the source file.
unfoldable pub checked : Definitions → Result ParseError Definitions
unfolding check_all
checked ds = check_all ds (map (λ (n, d). d) ds) >>= λ _. ok ds

-- `SourceFile::parse`.
unfoldable pub parse : Text → Result ParseError Definitions
unfolding statements definitions collect checked
parse ts = of_peg (statements ts) >>= λ ss. collect [] (definitions ss) >>= λ ds. checked ds
