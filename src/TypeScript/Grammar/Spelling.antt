-- ===== src/TypeScript/Grammar/Spelling.antt =====
-- How a TypeScript file may be written, as relations that know nothing of the parser: gaps of blanks
-- and comments, types, fields, definitions and statements.
use dbcrossbar.Base.{
  ℕ, Bool, true, false, not, List, [], ◌∷◌, ◌++◌, none, Text, codes, all, ◌≡◌, strip_prefix, ◌==◌,
}
use dbcrossbar.BigQuery.Grammar.{is_name_start, is_name_part, is_blank}
use dbcrossbar.TypeScript.Ast.{Ty, Field, Definition, Statement}
use dbcrossbar.TypeScript.Grammar.{keywords}

-- `*/` stands nowhere in the text, nor does it begin at its last character before a `/`.
abbrev pub IsInner : Text → Type 0
IsInner [] = Unit
IsInner (c ∷ s) = (strip_prefix (codes "*/") (c ∷ (s ++ codes "*/")) ≡ none) × IsInner s

abbrev pub is_no_newline : ℕ → Bool
is_no_newline c = not (c == 10)

-- Blanks and comments.
pub data Gap : Text → Type 0 where
  nothing : Gap []
  blank : {w : Text} (c : ℕ) → is_blank c ≡ true → Gap w → Gap (c ∷ w)
  line :
      {w : Text} (s : Text)
      → all is_no_newline s ≡ true
      → Gap w
      → Gap (codes "//" ++ (s ++ (10 ∷ w)))
  block : {w : Text} (s : Text) → IsInner s → Gap w → Gap (codes "/*" ++ (s ++ (codes "*/" ++ w)))

-- A gap that is not empty.
pub data IsSome : Text → Type 0 where
  a_gap : {c : ℕ} {w : Text} → Gap (c ∷ w) → IsSome (c ∷ w)

abbrev pub IsIdentifier : Text → Type 0
IsIdentifier [] = ⊥
IsIdentifier (c ∷ s) = (is_name_start c ≡ true) × (all is_name_part s ≡ true)

-- No keyword of the grammar is a prefix of the text.
abbrev pub IsFree : List (Text × Ty) → Text → Type 0
IsFree [] s = Unit
IsFree ((k, t) ∷ ks) s = (strip_prefix k s ≡ none) × IsFree ks s

pub data Listed (e : Text × Ty) : List (Text × Ty) → Type 0 where
  here : {es : List (Text × Ty)} → Listed e (e ∷ es)
  later : {d : Text × Ty} {es : List (Text × Ty)} → Listed e es → Listed e (d ∷ es)

-- An operand of a union: a keyword, a name or an array of an operand.
pub data SpellsOperand : Ty → Text → Type 0 where
  word : {t : Ty} {k : Text} → Listed (k, t) keywords → SpellsOperand t k
  a_ref : (id : Text) → IsIdentifier id → IsFree keywords id → SpellsOperand (Ty.ref id) id
  an_array :
      {t : Ty} {s v w : Text}
      → SpellsOperand t s
      → Gap v
      → Gap w
      → SpellsOperand (Ty.array t) (s ++ (v ++ (codes "[" ++ (w ++ codes "]"))))

pub data SpellsTy : Ty → Text → Type 0 where
  operand : {t : Ty} {s : Text} → SpellsOperand t s → SpellsTy t s
  a_union :
      {t u : Ty} {s s' v w : Text}
      → SpellsTy t s
      → Gap v
      → Gap w
      → SpellsOperand u s'
      → SpellsTy (Ty.union t u) (s ++ (v ++ (codes "|" ++ (w ++ s'))))

-- `?` behind a name.
pub data SpellsMark : Bool → Text → Type 0 where
  marked : {w : Text} → Gap w → SpellsMark true (w ++ codes "?")
  unmarked : SpellsMark false []

pub data SpellsField : Field → Text → Type 0 where
  a_field :
      {optional : Bool} {t : Ty} {m w s : Text} (id : Text)
      → IsIdentifier id
      → SpellsMark optional m
      → Gap w
      → SpellsTy t s
      → SpellsField
          (record { name = id; optional = optional; ty = t })
          (id ++ (m ++ (codes ":" ++ (w ++ s))))

-- Fields behind the first, with their commas, and maybe one more comma.
pub data SpellsMore : List Field → Text → Type 0 where
  no_more : SpellsMore [] []
  last_comma : {w : Text} → Gap w → SpellsMore [] (w ++ codes ",")
  one_more :
      {f : Field} {fs : List Field} {v w s s' : Text}
      → Gap v
      → Gap w
      → SpellsField f s
      → SpellsMore fs s'
      → SpellsMore (f ∷ fs) (v ++ (codes "," ++ (w ++ (s ++ s'))))

pub data SpellsFields : List Field → Text → Type 0 where
  no_fields : SpellsFields [] []
  some_fields :
      {f : Field} {fs : List Field} {s s' : Text}
      → SpellsField f s
      → SpellsMore fs s'
      → SpellsFields (f ∷ fs) (s ++ s')

pub data SpellsStatement : Statement → Text → Type 0 where
  semicolon : SpellsStatement Statement.empty (codes ";")
  an_interface :
      {fs : List Field} {g v w s u : Text} (id : Text)
      → IsSome g
      → IsIdentifier id
      → Gap v
      → Gap w
      → SpellsFields fs s
      → Gap u
      → SpellsStatement
          (Statement.definition (Definition.interface (record { name = id; fields = fs })))
          (codes "interface" ++ (g ++ (id ++ (v ++ (codes "{" ++ (w ++ (s ++ (u ++ codes "}"))))))))
  an_alias :
      {t : Ty} {g v w s u : Text} (id : Text)
      → IsSome g
      → IsIdentifier id
      → Gap v
      → Gap w
      → SpellsTy t s
      → Gap u
      → SpellsStatement
          (Statement.definition (Definition.type_alias id t))
          (codes "type" ++ (g ++ (id ++ (v ++ (codes "=" ++ (w ++ (s ++ (u ++ codes ";"))))))))

-- Statements, each with a gap behind it.
pub data SpellsStatements : List Statement → Text → Type 0 where
  end : SpellsStatements [] []
  then_more :
      {st : Statement} {ss : List Statement} {s w s' : Text}
      → SpellsStatement st s
      → Gap w
      → SpellsStatements ss s'
      → SpellsStatements (st ∷ ss) (s ++ (w ++ s'))

-- A file: a gap, then statements.
pub data SpellsFile : List Statement → Text → Type 0 where
  a_file :
      {ss : List Statement} {w s : Text} → Gap w → SpellsStatements ss s → SpellsFile ss (w ++ s)
