-- ===== src/DriverArgs/Grammar.antt =====
-- dbcrossbarlib/src/driver_args.rs: the grammar of an argument, `name=value`, where a name has
-- members in dots or brackets and may end in `[]`.
pub mod Spelling
use dbcrossbar.Base.{
  ℕ, zero, suc, ◌==◌, Bool, true, false, Option, none, some, Text, List, [], ◌∷◌, ◌++◌, codes,
  length, strip_prefix, if◌then◌else◌,
}
use dbcrossbar.BigQuery.Grammar.{is_name_start, is_name_part}
use dbcrossbar.Peg.{span}
use dbcrossbar.DriverArgs.{Component, member, Arg}
use dbcrossbar.DriverArgs as Parts

abbrev pub dot : ℕ
dot = b'.'

abbrev pub open_bracket : ℕ
open_bracket = b'['

abbrev pub close_bracket : ℕ
close_bracket = b']'

abbrev pub equals : ℕ
equals = b'='

-- `id()`: an identifier, and what is left.
unfoldable pub id : Text → Option (Text × Text)
unfolding span
id [] = none
id (c ∷ ts) =
    let (xs, rest) = span is_name_part ts in if is_name_start c then some (c ∷ xs, rest) else none

abbrev pub dotted : Option (Text × Text) → Option (Component × Text)
dotted (some (name, rest)) = some (member name, rest)
dotted none = none

abbrev pub closed : Text → Text → Option (Component × Text)
closed name [] = none
closed name (c ∷ rest) = if c == close_bracket then some (member name, rest) else none

abbrev pub bracketed : Option (Text × Text) → Option (Component × Text)
bracketed (some (name, rest)) = closed name rest
bracketed none = none

unfoldable pub component : Text → Option (Component × Text)
unfolding id
component [] = none
component (c ∷ ts) =
    if c == dot then dotted (id ts) else (if c == open_bracket then bracketed (id ts) else none)

abbrev pub more :
    Option (Component × Text) → Text → (Text → List Component × Text) → List Component × Text
more none ts next = ([], ts)
more (some (c, rest)) ts next = let (cs, left) = next rest in (c ∷ cs, left)

-- `component()*`, on fuel: each takes a character at least.
unfoldable pub components : ℕ → Text → List Component × Text
unfolding component
components zero ts = ([], ts)
components (suc f) ts = more (component ts) ts λ rest. components f rest

abbrev pub or_nothing : Option Text → Text → List Component × Text
or_nothing (some rest) ts = (Parts.final_array ∷ [], rest)
or_nothing none ts = ([], ts)

-- `final_array()`, as the components that it adds.
unfoldable pub final_components : Text → List Component × Text
unfolding strip_prefix
final_components ts = or_nothing (strip_prefix (codes "[]") ts) ts

abbrev pub with_value : List Component → Text → Option Arg
with_value path [] = none
with_value path (c ∷ value) =
    if c == equals then some (record { path = path; value = value }) else none

abbrev pub after_initial : Option (Text × Text) → Option Arg
after_initial none = none
after_initial (some (name, ts)) =
    let (rest, after_rest) = components (length ts) ts in
    let (final, left) = final_components after_rest in
    with_value (member name ∷ (rest ++ final)) left

unfoldable pub parse_arg : Text → Option Arg
unfolding id components final_components
parse_arg s = after_initial (id s)
