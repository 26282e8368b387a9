-- ===== src/Postgres/CreateTable/Schemas.antt =====
-- dbcrossbarlib/src/drivers/postgres_shared/table/create_table_sql.rs: the names that `table_name` can match.
use dbcrossbar.Base.{◌≡◌, refl, none, Text, subst, codes}
use dbcrossbar.Peg.{Peg, matched, failed, panicked, out_of_fuel, bind, orelse}
use dbcrossbar.Postgres.TableName.{TableName}
use dbcrossbar.Postgres.Table.{PgCreateTable}
use dbcrossbar.Postgres.SqlText.{identifier, i, then_ws, optional, ws_opt, sign}
use dbcrossbar.Postgres.CreateTable.{table_name, columns, closing, parse}

-- Whatever is matched has the property.
data Matches {A : Type 0} (P : A → Type 0) : Peg A → Type 0 where
  holds : (a : A) (r : Text) → P a → Matches P (matched a r)
  fails : Matches P failed
  crashes : Matches P panicked
  runs_out : Matches P out_of_fuel

module _ {B : Type 0} {P : B → Type 0} where
  Matches-bind :
      {A : Type 0} {Q : A → Type 0} {m : Peg A} {k : A → Text → Peg B}
      → Matches Q m
      → ((a : A) (r : Text) → Q a → Matches P (k a r))
      → Matches P (bind m k)
  Matches-bind (holds a r h) f = f a r h
  Matches-bind fails f = fails
  Matches-bind crashes f = crashes
  Matches-bind runs_out f = runs_out

  step :
      {A : Type 0} (m : Peg A) {k : A → Text → Peg B}
      → ((a : A) (r : Text) → Matches P (k a r))
      → Matches P (bind m k)
  step (matched a r) f = f a r
  step failed f = fails
  step panicked f = crashes
  step out_of_fuel f = runs_out

  matched_holds : {a : B} {r : Text} → Matches P (matched a r) → P a
  matched_holds (holds a r h) = h

abbrev HasNoSchema : TableName → Type 0
HasNoSchema name = name.schema ≡ none

-- Where the first alternative for a name fails, the second does, which begins alike.
alike :
    (m : Peg Text) (k : Text → Text → Peg TableName)
    → Matches HasNoSchema
        (orelse (bind m λ table r. matched (record { schema = none; table = table }) r) (bind m k))
alike (matched a r) k = holds _ r refl
alike failed k = fails
alike panicked k = crashes
alike out_of_fuel k = runs_out

table_name-Matches : (ts : Text) → Matches HasNoSchema (table_name ts)
unfolding table_name
table_name-Matches ts = alike (identifier ts) _

abbrev IsInNoSchema : PgCreateTable → Type 0
IsInNoSchema t = t.name.schema ≡ none

parse-Matches : (ts : Text) → Matches IsInNoSchema (parse ts)
unfolding parse
parse-Matches ts = step (then_ws (i (codes "CREATE") (ws_opt ts))) λ _ r₁.
    step (optional (λ r. then_ws (i (codes "UNLOGGED") r)) r₁) λ _ r₂.
      step (then_ws (i (codes "TABLE") r₂)) λ _ r₃.
        Matches-bind (table_name-Matches r₃) λ name r₄ h. step (sign (codes "(") r₄) λ _ r₅.
          step (columns (ws_opt r₅))
            λ cols r₆. step (sign (codes ")") r₆) λ _ r₇. step (closing r₇) λ _ r₈. holds _ r₈ h

-- A declaration that is read never has a table with a schema, although the grammar has an
-- alternative for `schema.table`.
pub parse_schema :
    (ts : Text) (t : PgCreateTable) (r : Text) → parse ts ≡ matched t r → t.name.schema ≡ none
parse_schema ts t r h = matched_holds (subst (Matches IsInNoSchema) h (parse-Matches ts))
