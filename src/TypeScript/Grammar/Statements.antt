-- ===== src/TypeScript/Grammar/Statements.antt =====
-- The grammar reads every spelling of a file.
use dbcrossbar.Base.{
  ℕ, zero, suc, List, [], ◌∷◌, ◌++◌, none, Text, codes, ◌≡◌, refl, ap, ◌∙◌, append_assoc,
  append-nil, arith, length, strip_prefix,
}
use dbcrossbar.Peg.{matched, failed, literal}
use dbcrossbar.Peg.Outcome.{Yields, done, gave_up, Yields-bind, Yields-orelse_left, Yields-matched}
use dbcrossbar.Peg.Leaves.{Leaves-out_of_fuel}
use dbcrossbar.TypeScript.Ast.{Ty, Field, Interface, Definition, Statement}
use dbcrossbar.TypeScript.Grammar.{
  fields, ws_opt, ws_item, ws, interface, type_alias, definition, statement, more_statements,
  statements,
}
use dbcrossbar.TypeScript.Grammar.Fuel.{more_statements-Leaves}
use dbcrossbar.TypeScript.Grammar.Gaps.{
  ws_opt-Gap, no_gap, Gap-StopsAt, ws_item-blank, skip_line-append, skip_block-append,
}
use dbcrossbar.TypeScript.Grammar.Types.{sign, identifier-append, ident-no_gap, SpellsTy-no_gap}
use dbcrossbar.TypeScript.Grammar.Fields.{ty-Ends, ends, fields-append, field-no_gap}
use dbcrossbar.TypeScript.Grammar.Spelling.{
  Gap, nothing, blank, line, block, IsSome, a_gap, IsIdentifier, SpellsTy, SpellsFields,
  SpellsStatement, semicolon, an_interface, an_alias, SpellsStatements, end, then_more, SpellsFile,
  a_file, SpellsField, some_fields, no_fields,
}

-- `ws()` takes a gap that is not empty.
pub ws-append : {g : Text} → IsSome g → (r : Text) → ws_item r ≡ none → ws (g ++ r) ≡ matched tt r
unfolding ws
ws-append (a_gap (blank {w} c b g)) r stop =
    rw (ws_item-blank c (w ++ r) b) (rw (ws_opt-Gap r g stop))
ws-append (a_gap (line {w} s c g)) r stop =
    rw (append_assoc s (10 ∷ w) r, skip_line-append s (w ++ r) c) (rw (ws_opt-Gap r g stop))
ws-append (a_gap (block {w} s c g)) r stop =
    rw (append_assoc s (codes "*/" ++ w) r, skip_block-append s (w ++ r) c)
      (rw (ws_opt-Gap r g stop))

module _ (g id v w s u r : Text) where
  regroup_interface :
      (codes "interface" ++ (g ++ (id ++ (v ++ (codes "{" ++ (w ++ (s ++ (u ++ codes "}"))))))))
        ++ r
      ≡ codes "interface" ++ (g ++ (id ++ (v ++ (b'{' ∷ (w ++ (s ++ (u ++ (b'}' ∷ r))))))))
  regroup_interface = simp append_assoc

  regroup_alias :
      (codes "type" ++ (g ++ (id ++ (v ++ (codes "=" ++ (w ++ (s ++ (u ++ codes ";")))))))) ++ r
      ≡ codes "type" ++ (g ++ (id ++ (v ++ (b'=' ∷ (w ++ (s ++ (u ++ (b';' ∷ r))))))))
  regroup_alias = simp append_assoc

Gap-append : {w u : Text} → Gap w → Gap u → Gap (w ++ u)
Gap-append nothing g = g
Gap-append (blank c b h) g = blank c b (Gap-append h g)
Gap-append {u = u} (line {w} s c h) g = rw (append_assoc s (10 ∷ w) u) (line s c (Gap-append h g))
Gap-append {u = u} (block {w} s c h) g =
    rw (append_assoc s (codes "*/" ++ w) u) (block s c (Gap-append h g))

fields-no_gap :
    {f : Field} {s : Text} → SpellsField f s → (s' t : Text) → ws_item ((s ++ s') ++ t) ≡ none
fields-no_gap {s = s} sp s' t = rw (append_assoc s s' t) (field-no_gap sp (s' ++ t))

fields_read :
    {fs : List Field} {w s u : Text}
    → Gap w
    → SpellsFields fs s
    → Gap u
    → (r : Text)
    → (rest : Text) × (fields (ws_opt (w ++ (s ++ (u ++ (b'}' ∷ r))))) ≡ matched fs rest)
      × (literal (codes "}") (ws_opt rest) ≡ matched tt r)
fields_read {w = w} {u = u} gw no_fields gu r = (
  b'}' ∷ r,
  rw (← append_assoc w u (b'}' ∷ r)) (
      rw (ws_opt-Gap (b'}' ∷ r) (Gap-append gw gu) (no_gap b'}' r refl refl))
        (fields-append nothing r no_fields)),
  sign nothing b'}' r (no_gap b'}' r refl refl),
)
fields_read {u = u} gw (some_fields {s = s} {s'} sp sps) gu r = (
  u ++ (b'}' ∷ r),
  rw (ws_opt-Gap ((s ++ s') ++ (u ++ (b'}' ∷ r))) gw (fields-no_gap sp s' (u ++ (b'}' ∷ r))))
      (fields-append gu r (some_fields sp sps)),
  sign gu b'}' r (no_gap b'}' r refl refl),
)

interface-append :
    {fs : List Field} {g v w s u : Text} (id r : Text)
    → IsSome g
    → IsIdentifier id
    → Gap v
    → Gap w
    → SpellsFields fs s
    → Gap u
    → interface
        (codes "interface" ++ (g ++ (id ++ (v ++ (b'{' ∷ (w ++ (s ++ (u ++ (b'}' ∷ r)))))))))
      ≡ matched (record { name = id; fields = fs }) r
unfolding interface
interface-append {v = v} {w} {s} {u} id r g ident gv gw sp gu =
    let tail : Text = w ++ (s ++ (u ++ (b'}' ∷ r))) in
    let (rest, read, last) = fields_read gw sp gu r in
    rw (ws-append g (id ++ (v ++ (b'{' ∷ tail))) (ident-no_gap id (v ++ (b'{' ∷ tail)) ident)) (
      rw (identifier-append id (v ++ (b'{' ∷ tail)) ident (Gap-StopsAt b'{' tail gv refl))
        (rw (sign gv b'{' tail (no_gap b'{' tail refl refl)) (rw read (rw last))))

alias-append :
    {t : Ty} {g v w s u : Text} (id r : Text)
    → IsSome g
    → IsIdentifier id
    → Gap v
    → Gap w
    → SpellsTy t s
    → Gap u
    → type_alias (codes "type" ++ (g ++ (id ++ (v ++ (b'=' ∷ (w ++ (s ++ (u ++ (b';' ∷ r)))))))))
      ≡ matched (Definition.type_alias id t) r
unfolding type_alias
alias-append {v = v} {w} {s} {u} id r g ident gv gw sp gu =
    let tail : Text = w ++ (s ++ (u ++ (b';' ∷ r))) in
    rw (ws-append g (id ++ (v ++ (b'=' ∷ tail))) (ident-no_gap id (v ++ (b'=' ∷ tail)) ident)) (
      rw (identifier-append id (v ++ (b'=' ∷ tail)) ident (Gap-StopsAt b'=' tail gv refl)) (
        rw (sign gv b'=' tail (no_gap b'=' tail refl refl)) (
          rw (ws_opt-Gap (s ++ (u ++ (b';' ∷ r))) gw (SpellsTy-no_gap sp (u ++ (b';' ∷ r)))) (
            rw (ty-Ends sp (ends gu b';' refl r))
              (rw (sign gu b';' r (no_gap b';' r refl refl)))))))

no_interface : (r : Text) → interface (codes "type" ++ r) ≡ failed
unfolding interface
no_interface r = refl

interface-statement :
    (text r : Text) (i : Interface)
    → interface text ≡ matched i r
    → statement text ≡ matched (Statement.definition (Definition.interface i)) r
unfolding statement definition
interface-statement text r i read = rw read

type_alias-statement :
    (text r : Text) (d : Definition)
    → interface text ≡ failed
    → type_alias text ≡ matched d r
    → statement text ≡ matched (Statement.definition d) r
unfolding statement definition
type_alias-statement text r d other read = rw (other, read)

statement-append :
    {st : Statement} {s : Text}
    → SpellsStatement st s
    → (r : Text) → statement (s ++ r) ≡ matched st r
statement-append semicolon r =
    unfold statement definition interface type_alias literal strip_prefix in refl
statement-append (an_interface {g = g} {v} {w} {s} {u} id is_some ident gv gw sp gu) r =
    ap statement (regroup_interface g id v w s u r)
    ∙ interface-statement _ r _ (interface-append id r is_some ident gv gw sp gu)
statement-append (an_alias {g = g} {v} {w} {s} {u} id is_some ident gv gw sp gu) r =
    ap statement (regroup_alias g id v w s u r)
    ∙ type_alias-statement _ r _
        (no_interface (g ++ (id ++ (v ++ (b'=' ∷ (w ++ (s ++ (u ++ (b';' ∷ r)))))))))
        (alias-append id r is_some ident gv gw sp gu)

statement-no_gap :
    {st : Statement} {s : Text} → SpellsStatement st s → (r : Text) → ws_item (s ++ r) ≡ none
statement-no_gap semicolon r = no_gap b';' r refl refl
statement-no_gap (an_interface id is_some ident gv gw sp gu) r = no_gap b'i' _ refl refl
statement-no_gap (an_alias id is_some ident gv gw sp gu) r = no_gap b't' _ refl refl

-- Behind the statements there is at most a gap.
abbrev Read : List Statement → Text → Type 0
Read ss text =
    (rest : Text) × ((f : ℕ) → Yields ss rest (more_statements f text)) × (ws_opt rest ≡ [])

module _ {w : Text} (g : Gap w) where
  all_read : ws_opt w ≡ []
  all_read = rw (append-nil w) at (ws_opt-Gap [] g (unfold ws_item in refl))

  end-Read : Read [] w
  end-Read = (w, here, all_read)
    where
      here : (f : ℕ) → Yields [] w (more_statements f w)
      here zero = unfold more_statements in gave_up
      here (suc f) = unfold more_statements in (rw all_read done)

  then-Read :
      {st : Statement} {ss : List Statement} {s : Text}
      → SpellsStatement st s
      → (t : Text) → Read ss t
      → Read (st ∷ ss) (w ++ (s ++ t))
  then-Read {st} {ss} {s} sp t (rest, read, ended) = (rest, here, ended)
    where
      here : (f : ℕ) → Yields (st ∷ ss) rest (more_statements f (w ++ (s ++ t)))
      here zero = unfold more_statements in gave_up
      here (suc f) =
          unfold more_statements in
          (rw (ws_opt-Gap (s ++ t) g (statement-no_gap sp t))
            (rw (statement-append sp t) (Yields-orelse_left _ (Yields-bind _ (read f) done))))

statements-Read :
    {ss : List Statement} {s w : Text} → SpellsStatements ss s → Gap w → Read ss (w ++ s)
statements-Read {w = w} end g = rw (append-nil w) (end-Read g)
statements-Read (then_more {w = v} {s'} sp h sps) g =
    then-Read g sp (v ++ s') (statements-Read sps h)

-- The grammar accepts every spelling of a file, with gaps of blanks and comments wherever it allows
-- them, and gives the statements that are spelled: unions associate to the left, and arrays bind
-- tighter. (A name of a type is spelled only if no keyword of the grammar is a prefix of it.)
pub statements-SpellsFile :
    (ss : List Statement) (text : Text) → SpellsFile ss text → statements text ≡ matched ss []
unfolding statements
statements-SpellsFile ss text (a_file {w = w} g end) = rw (append-nil w) (
    rw (all_read g) (unfold statement definition interface type_alias literal strip_prefix in refl))
statements-SpellsFile ss text (a_file {w = w} g (then_more {s = s} {w = v} {s'} sp h sps)) =
    let t : Text = v ++ s' in
    let (rest, read, ended) = statements-Read sps h in
    rw (ws_opt-Gap (s ++ t) g (statement-no_gap sp t)) (
      rw (statement-append sp t) (
        rw
          (Yields-matched (read (suc (length t)))
            (Leaves-out_of_fuel (more_statements-Leaves (suc (length t)) t (omega arith))))
          (rw ended)))
