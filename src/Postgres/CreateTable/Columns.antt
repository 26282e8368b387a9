-- ===== src/Postgres/CreateTable/Columns.antt =====
-- dbcrossbarlib/src/drivers/postgres_shared/table/create_table_sql.rs: the columns that are written are read.
use dbcrossbar.Base.{
  ℕ, ap, ◌∙◌, Bool, ◌≡◌, refl, true, false, none, Text, codes, [], ◌∷◌, ◌++◌, append_assoc, length,
  if◌then◌else◌,
}
use dbcrossbar.Peg.{matched, failed, literal}
use dbcrossbar.Peg.Repeats.{star_stop}
use dbcrossbar.Peg.Outcome.{bind-matched}
use dbcrossbar.BigQuery.Grammar.{is_name_part}
use dbcrossbar.Postgres.Types.{PgDataType, PgScalarDataType, array, scalar, display_scalar, display}
use dbcrossbar.Postgres.Quote.{display_ident}
use dbcrossbar.Postgres.Column.{PgColumn, display_column}
use dbcrossbar.Postgres.SqlText.{ws_item, ws_opt, optional}
use dbcrossbar.Postgres.CreateTable.{data_type, is_nullable, primary_key, column}
use dbcrossbar.Postgres.CreateTable.Words.{identifier-display_ident}
use dbcrossbar.Postgres.CreateTable.ScalarTypes.{HasNumeral, scalar_data_type-display}

-- An array has one dimension.
abbrev pub IsReadable : (ℕ → Text) → PgDataType → Type 0
IsReadable decimal (array n ty) = (n ≡ 1) × HasNumeral decimal ty
IsReadable decimal (scalar ty) = HasNumeral decimal ty

ws_item-display_scalar :
    (decimal : ℕ → Text) (ty : PgScalarDataType) (r : Text)
    → ws_item (display_scalar decimal ty ++ r) ≡ none
unfolding ws_item
ws_item-display_scalar decimal PgScalarDataType.boolean r = refl
ws_item-display_scalar decimal PgScalarDataType.date r = refl
ws_item-display_scalar decimal PgScalarDataType.numeric r = refl
ws_item-display_scalar decimal PgScalarDataType.real r = refl
ws_item-display_scalar decimal PgScalarDataType.double_precision r = refl
ws_item-display_scalar decimal (PgScalarDataType.geometry _) r = refl
ws_item-display_scalar decimal PgScalarDataType.smallint r = refl
ws_item-display_scalar decimal PgScalarDataType.int r = refl
ws_item-display_scalar decimal PgScalarDataType.bigint r = refl
ws_item-display_scalar decimal PgScalarDataType.json r = refl
ws_item-display_scalar decimal PgScalarDataType.jsonb r = refl
ws_item-display_scalar decimal PgScalarDataType.text r = refl
ws_item-display_scalar decimal PgScalarDataType.timestamp_without_time_zone r = refl
ws_item-display_scalar decimal PgScalarDataType.timestamp_with_time_zone r = refl
ws_item-display_scalar decimal PgScalarDataType.uuid r = refl

ws_item-display :
    (decimal : ℕ → Text) (ty : PgDataType) (r : Text) → ws_item (display decimal ty ++ r) ≡ none
unfolding display
ws_item-display decimal (array n ty) r =
    rw (append_assoc (display_scalar decimal ty) _ r) (ws_item-display_scalar decimal ty _)
ws_item-display decimal (scalar ty) r = ws_item-display_scalar decimal ty r

ws_opt-display :
    (decimal : ℕ → Text) (ty : PgDataType) (r : Text)
    → ws_opt (display decimal ty ++ r) ≡ display decimal ty ++ r
unfolding ws_opt
ws_opt-display decimal ty r =
    star_stop ws_item (length (display decimal ty ++ r)) (display decimal ty ++ r)
      (ws_item-display decimal ty r)

data_type-display :
    (decimal : ℕ → Text) (ty : PgDataType) (c : ℕ) (r : Text)
    → IsReadable decimal ty
    → is_name_part c ≡ false
    → literal (codes "[") (ws_opt (c ∷ r)) ≡ failed
    → data_type (display decimal ty ++ c ∷ r) ≡ matched ty (c ∷ r)
unfolding data_type display
data_type-display decimal (array n ty) c r (one, h) e stop = rw one (
    rw (append_assoc (display_scalar decimal ty) (codes "[]") (c ∷ r))
      (rw (scalar_data_type-display decimal ty b'[' (b']' ∷ c ∷ r) h refl)))
data_type-display decimal (scalar ty) c r h e stop =
    rw (scalar_data_type-display decimal ty c r h e) (rw stop)

-- What may stand behind a column.
pub data Ends : Text → Type 0 where
  comma : (s : Text) → Ends (b',' ∷ s)
  closed : (s : Text) → Ends (10 ∷ b')' ∷ s)

regroup : (a b c d r : Text) → (((a ++ b) ++ c) ++ d) ++ r ≡ a ++ (b ++ (c ++ (d ++ r)))
regroup a b c d r = rw (
  append_assoc ((a ++ b) ++ c) d r,
  append_assoc (a ++ b) c (d ++ r),
  append_assoc a b (c ++ (d ++ r)),
)

abbrev null_text : PgColumn → Text
null_text col = if col.is_nullable then [] else codes " NOT NULL"

suffix-Ends :
    (decimal : ℕ → Text) (ty : PgDataType) (nullable : Bool) (r : Text)
    → IsReadable decimal ty
    → Ends r
    → data_type (display decimal ty ++ ((if nullable then [] else codes " NOT NULL") ++ r))
      ≡ matched ty ((if nullable then [] else codes " NOT NULL") ++ r)
unfolding literal ws_opt
suffix-Ends decimal ty true r h (comma s) = data_type-display decimal ty b',' s h refl refl
suffix-Ends decimal ty true r h (closed s) = data_type-display decimal ty 10 (b')' ∷ s) h refl refl
suffix-Ends decimal ty false r h e =
    data_type-display decimal ty b' ' (codes "NOT NULL" ++ r) h refl refl

no_key : (r : Text) → Ends r → optional primary_key r ≡ matched tt r
unfolding primary_key
no_key _ (comma s) = refl
no_key _ (closed s) = refl

is_nullable-null_text :
    (nullable : Bool) (r : Text)
    → Ends r
    → is_nullable ((if nullable then [] else codes " NOT NULL") ++ r) ≡ matched nullable r
unfolding is_nullable
is_nullable-null_text true _ (comma s) = refl
is_nullable-null_text true _ (closed s) = refl
is_nullable-null_text false r e = refl

display_column-null_text :
    (decimal : ℕ → Text) (col : PgColumn) (r : Text)
    → display_column decimal col ++ r
      ≡ display_ident col.name
        ++ (codes " " ++ (display decimal col.data_type ++ (null_text col ++ r)))
unfolding display_column
display_column-null_text decimal col r =
    regroup (display_ident col.name) (codes " ") (display decimal col.data_type) (null_text col) r

pub column-display_column :
    (decimal : ℕ → Text) (col : PgColumn) (r : Text)
    → IsReadable decimal col.data_type
    → Ends r
    → column (display_column decimal col ++ r) ≡ matched col r
unfolding column
column-display_column decimal col r h e =
    let tail = null_text col ++ r in
    ap column (display_column-null_text decimal col r)
    ∙ bind-matched _
        (identifier-display_ident col.name (b' ' ∷ (display decimal col.data_type ++ tail)) refl)
        (bind-matched _
          (ap data_type (ws_opt-display decimal col.data_type tail)
            ∙ suffix-Ends decimal col.data_type col.is_nullable r h e)
          (bind-matched _ (is_nullable-null_text col.is_nullable r e)
            (bind-matched _ (no_key r e) refl)))
