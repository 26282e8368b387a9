-- ===== src/DriverArgs/Grammar/Spelling.antt =====
-- Every spelling of an argument is read as this argument.
use dbcrossbar.Base.{
  ℕ, zero, suc, ◌≤◌, ◌≡◌, refl, ap, arith, none, some, Text, List, [], ◌∷◌, ◌++◌, codes, length,
  length-append, append_assoc, strip_prefix,
}
use dbcrossbar.BigQuery.ColumnName.Validity.{IsName}
use dbcrossbar.BigQuery.Grammar.{is_name_part}
use dbcrossbar.Peg.Spans.{StopsAt, span-append}
use dbcrossbar.DriverArgs.{Component, member, Arg}
use dbcrossbar.DriverArgs as Parts
use dbcrossbar.DriverArgs.Grammar.{
  more, dot, open_bracket, close_bracket, equals, id, component, components, final_components,
  parse_arg,
}

-- Members, each behind a dot or in brackets.
pub data SpellsMembers : List Component → Text → Type 0 where
  no_more : SpellsMembers [] []
  by_dot :
      {path : List Component} {s : Text} (name : Text)
      → IsName name
      → SpellsMembers path s
      → SpellsMembers (member name ∷ path) (dot ∷ (name ++ s))
  by_brackets :
      {path : List Component} {s : Text} (name : Text)
      → IsName name
      → SpellsMembers path s
      → SpellsMembers (member name ∷ path) (open_bracket ∷ (name ++ close_bracket ∷ s))

pub data SpellsFinal : List Component → Text → Type 0 where
  no_array : SpellsFinal [] []
  an_array : SpellsFinal (Parts.final_array ∷ []) (codes "[]")

id-append : (x r : Text) → IsName x → StopsAt is_name_part r → id (x ++ r) ≡ some (x, r)
unfolding id
id-append [] r h stop = cc h.0
id-append (c ∷ x) r h stop = rw (h.0, span-append is_name_part x r h.1 stop)

-- What follows the members.
abbrev tail_of : Text → Text → Text
tail_of t value = t ++ equals ∷ value

stops_final :
    {final : List Component} {t : Text} (value : Text)
    → SpellsFinal final t
    → StopsAt is_name_part (tail_of t value)
stops_final value no_array = refl
stops_final value an_array = refl

stops_members :
    {path final : List Component} {s t : Text} (value : Text)
    → SpellsMembers path s
    → SpellsFinal final t
    → StopsAt is_name_part (s ++ tail_of t value)
stops_members value no_more f = stops_final value f
stops_members value (by_dot name h ms) f = refl
stops_members value (by_brackets name h ms) f = refl

component-final :
    {final : List Component} {t : Text} (value : Text)
    → SpellsFinal final t
    → component (tail_of t value) ≡ none
unfolding component id
component-final value no_array = refl
component-final value an_array = refl

components-Spells :
    (f : ℕ) {path final : List Component} {s t : Text} (value : Text)
    → SpellsMembers path s
    → SpellsFinal final t
    → length s ≤ f
    → components f (s ++ tail_of t value) ≡ (path, tail_of t value)
unfolding components component
components-Spells zero value no_more f h = refl
components-Spells (suc n) {t = t} value no_more f h =
    ap (λ o. more o (tail_of t value) λ rest. components n rest) (component-final value f)
components-Spells zero value (by_dot name i ms) f h = absurd (omega arith)
components-Spells zero value (by_brackets name i ms) f h = absurd (omega arith)
components-Spells (suc n) {t = t} value (by_dot {s = s} name i ms) f h =
    let sizes = length-append name s in
    rw (append_assoc name s (tail_of t value)) (
      rw (id-append name (s ++ tail_of t value) i (stops_members value ms f))
        (rw (components-Spells n value ms f (omega arith)) refl))
components-Spells (suc n) {t = t} value (by_brackets {s = s} name i ms) f h =
    let sizes = length-append name (close_bracket ∷ s) in
    rw (append_assoc name (close_bracket ∷ s) (tail_of t value)) (
      rw (id-append name (close_bracket ∷ (s ++ tail_of t value)) i refl)
        (rw (components-Spells n value ms f (omega arith)) refl))

final-Spells :
    {final : List Component} {t : Text} (value : Text)
    → SpellsFinal final t
    → final_components (tail_of t value) ≡ (final, equals ∷ value)
unfolding final_components strip_prefix
final-Spells value no_array = refl
final-Spells value an_array = refl

-- A name, with members in dots or brackets and `[]` at the end or not, an equals sign and any text
-- are read as an argument with these components and this value.
pub parse_arg-Spells :
    (name value : Text) {path final : List Component} {s t : Text}
    → IsName name
    → SpellsMembers path s
    → SpellsFinal final t
    → parse_arg (name ++ (s ++ (t ++ equals ∷ value)))
      ≡ some (record { path = member name ∷ (path ++ final); value = value })
unfolding parse_arg
parse_arg-Spells name value {s = s} {t = t} h ms f =
    let sizes = length-append s (tail_of t value) in
    rw (id-append name (s ++ tail_of t value) h (stops_members value ms f)) (
      rw (components-Spells (length (s ++ tail_of t value)) value ms f (omega arith))
        (rw (final-Spells value f) refl))
