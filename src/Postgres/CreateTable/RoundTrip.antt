-- ===== src/Postgres/CreateTable/RoundTrip.antt =====
-- dbcrossbarlib/src/drivers/postgres_shared/table/create_table_sql.rs: the declarations that the `Display` of
-- table/mod.rs writes are read.
use dbcrossbar.Base.{
  ℕ, ap, ◌∙◌, zero, suc, ◌≤◌, ◌<◌, ◌≡◌, refl, false, none, List, All, Text, codes, [], ◌∷◌, ◌++◌,
  append_assoc, arith, length, length-append, if◌then◌else◌,
}
use dbcrossbar.Peg.{matched, literal}
use dbcrossbar.Peg.Outcome.{bind-matched, orelse-matched}
use dbcrossbar.Postgres.Quote.{display_ident}
use dbcrossbar.Postgres.Column.{PgColumn, display_column}
use dbcrossbar.Postgres.Table.{is_empty, display_columns, display}
use dbcrossbar.Postgres.SqlText.{ws_opt, sign}
use dbcrossbar.Postgres.CreateTable.{column, more_columns, columns, table_name, parse}
use dbcrossbar.Postgres.CreateTable.Words.{identifier-display_ident}
use dbcrossbar.Postgres.CreateTable.Columns.{IsReadable, Ends, comma, closed, column-display_column}

abbrev end_of_table : Text
end_of_table = codes ");\n"

-- What is written behind a column, before columns.
behind : (ℕ → Text) → List PgColumn → Text
behind decimal [] = codes "\n" ++ end_of_table
behind decimal (c ∷ cols) = codes ",\n    " ++ (display_column decimal c ++ behind decimal cols)

behind-Ends : (decimal : ℕ → Text) (cols : List PgColumn) → Ends (behind decimal cols)
unfolding behind
behind-Ends decimal [] = closed _
behind-Ends decimal (c ∷ cols) = comma _

glue : (x s n e : Text) → ((x ++ s) ++ n) ++ e ≡ x ++ (s ++ (n ++ e))
glue x s n e = rw (append_assoc (x ++ s) n e, append_assoc x s (n ++ e)) refl

display_columns-behind :
    (decimal : ℕ → Text) (c : PgColumn) (cols : List PgColumn)
    → display_columns decimal (c ∷ cols) ++ end_of_table
      ≡ codes "    " ++ (display_column decimal c ++ behind decimal cols)
unfolding display_columns behind
display_columns-behind decimal c [] =
    ap (λ t. codes "    " ++ t) (glue (display_column decimal c) (codes "\n") [] end_of_table)
display_columns-behind decimal c (d ∷ cols) =
    let next = display_columns decimal (d ∷ cols) in
    ap (λ t. codes "    " ++ t)
      (glue (display_column decimal c) (codes ",\n") next end_of_table
        ∙ ap (λ t. display_column decimal c ++ (codes ",\n" ++ t))
            (display_columns-behind decimal d cols))

-- Where a column begins, no gap does.
indented :
    (decimal : ℕ → Text) (c : PgColumn) (r : Text)
    → ws_opt (codes "\n    " ++ (display_column decimal c ++ r)) ≡ display_column decimal c ++ r
unfolding ws_opt display_column
indented decimal c r = refl

abbrev pub AreReadable : (ℕ → Text) → List PgColumn → Type 0
AreReadable decimal cols = All (λ c. IsReadable decimal c.data_type) cols

length-behind :
    (decimal : ℕ → Text) (cols : List PgColumn) → length cols ≤ length (behind decimal cols)
unfolding behind
length-behind decimal [] = omega arith
length-behind decimal (c ∷ cols) = omega (
  arith,
  length-behind decimal cols,
  length-append (display_column decimal c) (behind decimal cols),
)

more_columns-behind :
    (decimal : ℕ → Text) (cols : List PgColumn) (f : ℕ)
    → length cols < f
    → AreReadable decimal cols
    → more_columns f (behind decimal cols) ≡ matched cols (codes "\n" ++ end_of_table)
unfolding more_columns behind
more_columns-behind decimal cols zero le h = absurd (omega arith)
more_columns-behind decimal [] (suc f) le h = refl
more_columns-behind decimal (c ∷ cols) (suc f) le (first, rest) = orelse-matched _ (
    bind-matched _
      (ap column (indented decimal c (behind decimal cols))
        ∙ column-display_column decimal c (behind decimal cols) first (behind-Ends decimal cols))
      (bind-matched _ (more_columns-behind decimal cols f (omega arith) rest) refl))

columns-behind :
    (decimal : ℕ → Text) (c : PgColumn) (cols : List PgColumn)
    → AreReadable decimal (c ∷ cols)
    → columns (display_column decimal c ++ behind decimal cols)
      ≡ matched (c ∷ cols) (codes "\n" ++ end_of_table)
unfolding columns
columns-behind decimal c cols (first, rest) =
    let le = length-behind decimal cols in
    let ends = behind-Ends decimal cols in
    orelse-matched _ (
      bind-matched _ (column-display_column decimal c (behind decimal cols) first ends) (
        bind-matched _
          (more_columns-behind decimal cols (suc (length (behind decimal cols))) (omega arith) rest)
          refl))

regroup :
    (q a b cols d e : Text)
    → ((((q ++ a) ++ b) ++ cols) ++ d) ++ e ≡ q ++ (a ++ (b ++ (cols ++ (d ++ e))))
regroup q a b cols d e =
    rw
      (
        append_assoc (((q ++ a) ++ b) ++ cols) d e,
        append_assoc ((q ++ a) ++ b) cols (d ++ e),
        append_assoc (q ++ a) b (cols ++ (d ++ e)),
        append_assoc q a (b ++ (cols ++ (d ++ e))),
      )
      refl

-- The columns, behind the new line after the parenthesis that opens their list.
columns-display_columns :
    (decimal : ℕ → Text) (cols : List PgColumn)
    → AreReadable decimal cols
    → columns (ws_opt (codes "\n" ++ (display_columns decimal cols ++ end_of_table)))
      ≡ matched cols (if is_empty cols then end_of_table else codes "\n" ++ end_of_table)
columns-display_columns decimal [] h = unfold columns display_columns in refl
columns-display_columns decimal (c ∷ cols) h =
    ap (λ t. columns (ws_opt (codes "\n" ++ t))) (display_columns-behind decimal c cols)
    ∙ ap columns (indented decimal c (behind decimal cols))
    ∙ columns-behind decimal c cols h

sign-end_of_table :
    (cols : List PgColumn)
    → sign (codes ")") (if is_empty cols then end_of_table else codes "\n" ++ end_of_table)
      ≡ matched tt (codes ";\n")
unfolding ws_opt literal
sign-end_of_table [] = refl
sign-end_of_table (c ∷ cols) = refl

table_name-display_ident :
    (table r : Text)
    → table_name (display_ident table ++ b' ' ∷ r)
      ≡ matched (record { schema = none; table = table }) (b' ' ∷ r)
unfolding table_name
table_name-display_ident table r =
    orelse-matched _ (bind-matched _ (identifier-display_ident table (b' ' ∷ r) refl) refl)

-- The text of a declaration, whose table has no schema and is neither temporary nor declared
-- `IF NOT EXISTS`, whose arrays have one dimension and whose SRIDs are written as the digits of 32-bit
-- numbers, is read as this declaration, whatever the names of the table and of its columns hold.
pub parse-display :
    (decimal : ℕ → Text) (table : Text) (cols : List PgColumn)
    → AreReadable decimal cols
    → parse (
        display decimal (record {
          name = record { schema = none; table = table };
          columns = cols;
          if_not_exists = false;
          temporary = false;
        }))
      ≡ matched
          (record {
            name = record { schema = none; table = table };
            columns = cols;
            if_not_exists = false;
            temporary = false;
          })
          []
unfolding parse display
parse-display decimal table cols h =
    let written = display_columns decimal cols in
    ap (λ t. parse (codes "CREATE TABLE " ++ t))
      (regroup (display_ident table) (codes " (") (codes "\n") written (codes ");") (codes "\n"))
    ∙ bind-matched _ (table_name-display_ident table (codes "(\n" ++ (written ++ end_of_table))) (
        bind-matched _ (columns-display_columns decimal cols h)
          (bind-matched _ (sign-end_of_table cols) refl))
