-- ===== src/Postgres/Column/Laws.antt =====
-- A portable column comes back from PostgreSQL, and which columns can be exported.
use dbcrossbar.Base.{
  ap, sym, ◌∙◌, is_ok, if◌then◌else◌, ◌==◌, ◌<◌, ◌≡◌, refl, Bool, true, false, none, Text, Result,
  ok, err, ◌>>=◌, >>=-assoc,
}
use dbcrossbar.Schema.{DataType, Column}
use dbcrossbar.Postgres.Quote.{display_ident}
use dbcrossbar.Postgres.Types.{
  PgDataType, PgScalarDataType, PgError, array, scalar, from_data_type, to_data_type, two_to_31,
}
use dbcrossbar.Postgres.Types.RoundTrip.{depth, structs_as_json, to_data_type-from_data_type}
use dbcrossbar.Postgres.Column.{
  PgColumn, from_column, to_column, select_expr, write_export_select_expr,
}

abbrev pub returned : Column → Column
returned col = record col { data_type = structs_as_json col.data_type; comment = none }

-- What `to_column` makes of a type.
abbrev rebuilt : Column → DataType → Result PgError Column
rebuilt col ty = ok (record col { data_type = ty; comment = none })

-- A portable column whose arrays are nested less than 2^31 deep becomes a PostgreSQL column, which
-- becomes the same column again, without its comment and with JSON for its structs.
pub to_column-from_column :
    (col : Column)
    → depth col.data_type < two_to_31
    → (from_column col >>= to_column) ≡ ok (returned col)
unfolding from_column to_column
to_column-from_column col h =
    >>=-assoc (from_data_type col.data_type)
      (λ ty. ok (record { name = col.name; data_type = ty; is_nullable = col.is_nullable }))
      to_column
    ∙ sym (>>=-assoc (from_data_type col.data_type) to_data_type (rebuilt col))
    ∙ ap (λ r. r >>= rebuilt col) (to_data_type-from_data_type col.data_type h)

-- Which types can be exported: an array of numbers or times that PostgreSQL would write in its own
-- way has to be of one dimension.
unfoldable pub is_exportable : PgDataType → Bool
is_exportable (array n PgScalarDataType.bigint) = n == 1
is_exportable (array n PgScalarDataType.timestamp_without_time_zone) = n == 1
is_exportable (array n PgScalarDataType.timestamp_with_time_zone) = n == 1
is_exportable _ = true

is_ok-if : (t : Bool) (written : Text) (e : PgError) → is_ok (if t then ok written else err e) ≡ t
is_ok-if true written e = refl
is_ok-if false written e = refl

is_ok-select_expr :
    (column name : Text) (ty : PgDataType) → is_ok (select_expr column name ty) ≡ is_exportable ty
unfolding is_exportable
is_ok-select_expr column name (array n PgScalarDataType.bigint) = is_ok-if (n == 1) _ _
is_ok-select_expr column name (array n PgScalarDataType.timestamp_without_time_zone) =
    is_ok-if (n == 1) _ _
is_ok-select_expr column name (array n PgScalarDataType.timestamp_with_time_zone) =
    is_ok-if (n == 1) _ _
is_ok-select_expr column name (array _ _) = refl
is_ok-select_expr column name (scalar PgScalarDataType.timestamp_without_time_zone) = refl
is_ok-select_expr column name (scalar PgScalarDataType.timestamp_with_time_zone) = refl
is_ok-select_expr column name (scalar _) = refl

pub is_ok-write_export_select_expr :
    (col : PgColumn) → is_ok (write_export_select_expr col) ≡ is_exportable col.data_type
unfolding write_export_select_expr
is_ok-write_export_select_expr col =
    is_ok-select_expr col.name (display_ident col.name) col.data_type
