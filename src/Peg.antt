-- ===== src/Peg.antt =====
-- Parsing expressions, as the `peg` crate gives them meaning: a rule is a function from the input to
-- what it matched and the input left. `/` is `orelse`, which tries its second rule where the first has
-- failed.
pub mod Outcome
pub mod Leaves
pub mod Spans
pub mod Repeats
use dbcrossbar.Base.{ℕ, Bool, List, [], ◌∷◌, Option, none, some, Text, strip_prefix, if◌then◌else◌}

-- `panicked` is a panic in the code of an action. `out_of_fuel` has no counterpart in the program.
pub data Peg (A : Type 0) : Type 0 where
  matched : A → Text → Peg A
  failed panicked out_of_fuel : Peg A

abbrev pub bind : {A B : Type 0} → Peg A → (A → Text → Peg B) → Peg B
bind (matched a rest) k = k a rest
bind failed k = failed
bind panicked k = panicked
bind out_of_fuel k = out_of_fuel

abbrev pub orelse : {A : Type 0} → Peg A → Peg A → Peg A
orelse (matched a rest) q = matched a rest
orelse failed q = q
orelse panicked q = panicked
orelse out_of_fuel q = out_of_fuel

abbrev pub of_option : Option Text → Peg (Unit {0})
of_option none = failed
of_option (some rest) = matched tt rest

-- A literal of the grammar.
unfoldable pub literal : Text → Text → Peg (Unit {0})
unfolding strip_prefix
literal p ts = of_option (strip_prefix p ts)

-- A greedy `[…]*`: the longest prefix of such characters, and what is left.
unfoldable pub span : (ℕ → Bool) → Text → Text × Text
span p [] = ([], [])
span p (c ∷ ts) = let (xs, rest) = span p ts in if p c then (c ∷ xs, rest) else ([], c ∷ ts)

-- A public rule is run on the whole input.
abbrev pub finish : {A : Type 0} → Peg A → Peg A
finish (matched a []) = matched a []
finish (matched a (_ ∷ _)) = failed
finish failed = failed
finish panicked = panicked
finish out_of_fuel = out_of_fuel
