-- ===== src/Postgres/CreateTable/Fuel.antt =====
-- dbcrossbarlib/src/drivers/postgres_shared/table/create_table_sql.rs: the rules of the grammar come to an
-- end.
use dbcrossbar.Base.{
  ℕ, zero, suc, ◌<◌, ◌≢◌, true, false, List, [], ◌∷◌, Text, codes, length, arith, ◌≡◌, none,
}
use dbcrossbar.Peg.{matched, out_of_fuel, finish}
use dbcrossbar.Peg.Leaves.{
  LeavesOr, left, refused, Leaves-orelse, Leaves-bind, Leaves-out_of_fuel, literal-Leaves,
}
use dbcrossbar.Postgres.SqlText.{ws_opt, i, then_ws}
use dbcrossbar.Postgres.CreateTable.{
  Alternative, alternative, character, closing, column, columns, data_type, first_of, geometry,
  geometry_with_srid, is_nullable, keyword, keywords, length_limit, more_columns, parse,
  primary_key, scalar_data_type, scalar_data_types, table_name, ws_item,
}
use dbcrossbar.Postgres.CreateTable.Bounded.{
  ws_opt-stops, IsBounded, ws_opt-le, ws-IsBounded, i-IsBounded, literal-IsBounded, sign-IsBounded,
  optional-IsBounded, then_ws-Leaves, digits-Leaves, identifier-IsBounded, phrase-IsBounded,
  srid-IsBounded,
}

length_limit-IsBounded : IsBounded length_limit
unfolding length_limit
length_limit-IsBounded n ts h =
    Leaves-orelse
      (Leaves-bind (sign-IsBounded (codes "(") n ts h) λ _ r₁ le₁.
        Leaves-bind (digits-Leaves n (ws_opt r₁) (ws_opt-le n r₁ le₁))
          λ _ r₂ le₂. sign-IsBounded (codes ")") n r₂ le₂)
      (left tt ts h)

geometry-IsBounded : IsBounded geometry
unfolding geometry
geometry-IsBounded n ts h =
    Leaves-bind (optional-IsBounded _ (i-IsBounded (codes "public.")) n ts h) λ _ r₁ le₁.
      Leaves-bind (i-IsBounded (codes "geometry") n r₁ le₁) λ _ r₂ le₂.
        Leaves-bind (sign-IsBounded (codes "(") n r₂ le₂) λ _ r₃ le₃.
          Leaves-bind (identifier-IsBounded n (ws_opt r₃) (ws_opt-le n r₃ le₃)) λ _ r₄ le₄.
            Leaves-bind (sign-IsBounded (codes ",") n r₄ le₄) λ _ r₅ le₅.
              Leaves-bind (srid-IsBounded n (ws_opt r₅) (ws_opt-le n r₅ le₅)) λ _ r₆ le₆.
                Leaves-bind (sign-IsBounded (codes ")") n r₆ le₆) λ _ r₇ le₇. left _ r₇ le₇

alternative-IsBounded : (a : Alternative) → IsBounded (alternative a)
unfolding alternative
alternative-IsBounded (keyword k ty) n ts h =
    Leaves-bind (i-IsBounded k n ts h) λ _ r le. left ty r le
alternative-IsBounded (keywords k ks ty) n ts h =
    Leaves-bind (i-IsBounded k n ts h)
      λ _ r₁ le₁. Leaves-bind (phrase-IsBounded ks n r₁ le₁) λ _ r₂ le₂. left ty r₂ le₂
alternative-IsBounded character n ts h =
    Leaves-bind (i-IsBounded (codes "character") n ts h)
      λ _ r₁ le₁. Leaves-bind (length_limit-IsBounded n r₁ le₁) λ _ r₂ le₂. left _ r₂ le₂
alternative-IsBounded geometry_with_srid n ts h = geometry-IsBounded n ts h

first_of-IsBounded : (rules : List Alternative) → IsBounded (first_of rules)
unfolding first_of
first_of-IsBounded [] n ts h = refused
first_of-IsBounded (a ∷ rules) n ts h =
    Leaves-orelse (alternative-IsBounded a n ts h) (first_of-IsBounded rules n ts h)

scalar_data_type-IsBounded : IsBounded scalar_data_type
unfolding scalar_data_type
scalar_data_type-IsBounded n ts h = first_of-IsBounded scalar_data_types n ts h

data_type-IsBounded : IsBounded data_type
unfolding data_type
data_type-IsBounded n ts h =
    Leaves-orelse
      (Leaves-bind (scalar_data_type-IsBounded n ts h) λ ty r₁ le₁.
        Leaves-bind (sign-IsBounded (codes "[") n r₁ le₁)
          λ _ r₂ le₂. Leaves-bind (sign-IsBounded (codes "]") n r₂ le₂) λ _ r₃ le₃. left _ r₃ le₃)
      (Leaves-bind (scalar_data_type-IsBounded n ts h) λ ty r le. left _ r le)

is_nullable-IsBounded : IsBounded is_nullable
unfolding is_nullable
is_nullable-IsBounded n ts h =
    Leaves-orelse
      (Leaves-bind (phrase-IsBounded (codes "NOT" ∷ codes "NULL" ∷ []) n ts h)
        λ _ r le. left false r le)
      (left true ts h)

primary_key-IsBounded : IsBounded primary_key
unfolding primary_key
primary_key-IsBounded n ts h = phrase-IsBounded (codes "PRIMARY" ∷ codes "KEY" ∷ []) n ts h

column-IsBounded : IsBounded column
unfolding column
column-IsBounded n ts h = Leaves-bind (identifier-IsBounded n ts h) λ name r₁ le₁.
    Leaves-bind (ws-IsBounded n r₁ le₁) λ _ r₂ le₂.
      Leaves-bind (data_type-IsBounded n r₂ le₂) λ ty r₃ le₃.
        Leaves-bind (is_nullable-IsBounded n r₃ le₃) λ nullable r₄ le₄.
          Leaves-bind (optional-IsBounded _ primary_key-IsBounded n r₄ le₄)
            λ _ r₅ le₅. left _ r₅ le₅

-- Each column takes a comma at least.
more_columns-Leaves :
    (f : ℕ) (ts : Text) → length ts < f → LeavesOr (Unit {0}) (length ts) (more_columns f ts)
unfolding more_columns
more_columns-Leaves zero ts h = absurd (omega arith)
more_columns-Leaves (suc f) ts h =
    let shorter = ws_opt-le (length ts) ts (omega arith) in
    Leaves-orelse
      (literal-Leaves _ (codes ",") (ws_opt ts) λ r₁ le₁.
        Leaves-bind
          (column-IsBounded (length r₁) (ws_opt r₁) (ws_opt-le (length r₁) r₁ (omega arith)))
          λ x r₂ le₂.
            Leaves-bind (more_columns-Leaves f r₂ (omega arith))
              λ xs r₃ le₃. left _ r₃ (omega arith))
      (left [] ts (omega arith))

columns-IsBounded : IsBounded columns
unfolding columns
columns-IsBounded n ts h =
    Leaves-orelse
      (Leaves-bind (column-IsBounded n ts h) λ x r₁ le₁.
        Leaves-bind (more_columns-Leaves (suc (length r₁)) r₁ (omega arith))
          λ xs r₂ le₂. left _ r₂ (omega arith))
      (left [] ts h)

table_name-IsBounded : IsBounded table_name
unfolding table_name
table_name-IsBounded n ts h =
    Leaves-orelse (Leaves-bind (identifier-IsBounded n ts h) λ table r le. left _ r le) (
      Leaves-bind (identifier-IsBounded n ts h) λ schema r₁ le₁.
        Leaves-bind (literal-IsBounded (codes ".") n r₁ le₁)
          λ _ r₂ le₂. Leaves-bind (identifier-IsBounded n r₂ le₂) λ table r₃ le₃. left _ r₃ le₃)

finish-Leaves : (n : ℕ) (r : Text) → LeavesOr (Unit {0}) n (finish (matched tt r))
finish-Leaves n [] = left tt [] (omega arith)
finish-Leaves n (c ∷ r) = refused

closing-IsBounded : IsBounded closing
unfolding closing
closing-IsBounded n ts h =
    Leaves-bind
      (optional-IsBounded _ (literal-IsBounded (codes ";")) n (ws_opt ts) (ws_opt-le n ts h))
      λ _ r le. finish-Leaves n (ws_opt r)

-- Whatever the text, the grammar comes to a declaration, to a failure or to a panic, and no rule runs
-- forever. The fuel of the model is never the reason: no rule reports that it has run out, and the
-- blanks and comments, which would stop without a word, go on until neither stands next.
pub parse-ne-out_of_fuel :
    (ts : Text) → (parse ts ≢ out_of_fuel) × ((gap : Text) → ws_item (ws_opt gap) ≡ none)
unfolding parse
parse-ne-out_of_fuel ts =
    let n = length ts in
    let ends : parse ts ≢ out_of_fuel = Leaves-out_of_fuel (
      Leaves-bind {n = n}
        (then_ws-Leaves n _
          (i-IsBounded (codes "CREATE") n (ws_opt ts) (ws_opt-le n ts (omega arith))))
        λ _ r₁ le₁.
          Leaves-bind
            (optional-IsBounded (λ r. then_ws (i (codes "UNLOGGED") r))
              (λ m t le. then_ws-Leaves m _ (i-IsBounded (codes "UNLOGGED") m t le)) n r₁ le₁)
            λ _ r₂ le₂.
              Leaves-bind (then_ws-Leaves n _ (i-IsBounded (codes "TABLE") n r₂ le₂)) λ _ r₃ le₃.
                Leaves-bind (table_name-IsBounded n r₃ le₃) λ name r₄ le₄.
                  Leaves-bind (sign-IsBounded (codes "(") n r₄ le₄) λ _ r₅ le₅.
                    Leaves-bind (columns-IsBounded n (ws_opt r₅) (ws_opt-le n r₅ le₅))
                      λ cols r₆ le₆. Leaves-bind (sign-IsBounded (codes ")") n r₆ le₆) λ _ r₇ le₇.
                        Leaves-bind (closing-IsBounded n r₇ le₇) λ _ r₈ le₈. left _ r₈ le₈) in
    (ends, ws_opt-stops)
