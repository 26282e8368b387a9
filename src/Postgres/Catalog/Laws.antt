-- ===== src/Postgres/Catalog/Laws.antt =====
-- What is read from the catalog can be exported.
use dbcrossbar.Base.{
  ◌≡◌, refl, sym, ap, ◌∙◌, true, false, not, ◌&&◌, all, Option, none, some, Text, text_eq, List, [],
  ◌∷◌, map, codes, ℕ, ok, >>=-eq-ok, ok-injective, is_ok, if◌then◌else◌, if-eq, inl, inr,
}
use dbcrossbar.Schema.{Srid}
use dbcrossbar.Postgres.TableName.{TableName}
use dbcrossbar.Postgres.Types.{PgDataType, PgScalarDataType, array}
use dbcrossbar.Postgres.Column.{PgColumn}
use dbcrossbar.Postgres.Column.Laws.{is_exportable}
use dbcrossbar.Postgres.Table.{PgCreateTable, write_export_sql, is_empty}
use dbcrossbar.Postgres.Table.Laws.{is_ok-write_export_sql}
use dbcrossbar.Postgres.Table.Alignment.{column_name}
use dbcrossbar.Postgres.Catalog.{
  srid_map_get, need_srids, srids_of, parse_is_nullable, PgColumnSchema, of_element, of_basic,
  pg_data_type, column_type, build_columns, fetch_table, parse_is_nullable, srids_of,
}

one_dimension : (ty : PgScalarDataType) → is_exportable (array 1 ty) ≡ true
unfolding is_exportable
one_dimension PgScalarDataType.boolean = refl
one_dimension _ = refl

of_element-exportable :
    (o : Option PgScalarDataType) (s : Text) {ty : PgDataType}
    → of_element o s ≡ ok ty
    → is_exportable ty ≡ true
of_element-exportable (some ty) s e = rw (← ok-injective e) (one_dimension ty)
of_element-exportable none s e = cc

of_basic-exportable :
    (o : Option PgScalarDataType) (s : Text) {ty : PgDataType}
    → of_basic o s ≡ ok ty
    → is_exportable ty ≡ true
unfolding is_exportable
of_basic-exportable (some ty) s e = rw (← ok-injective e) refl
of_basic-exportable none s e = cc

pg_data_type-exportable :
    (data_type udt_name : Text) {ty : PgDataType}
    → pg_data_type data_type udt_name ≡ ok ty
    → is_exportable ty ≡ true
unfolding pg_data_type is_exportable
pg_data_type-exportable data_type udt_name e =
    elim (if-eq (text_eq data_type (codes "ARRAY")) (of_element _ udt_name) _ e) [
      | inl (_, f) ↦ of_element-exportable _ udt_name f
      | inr (_, f) ↦ elim (if-eq (text_eq data_type (codes "USER-DEFINED")) _ _ f) [
        | inr (_, g) ↦ of_basic-exportable _ data_type g
        | inl (_, g) ↦ elim (if-eq (text_eq udt_name (codes "citext")) _ _ g) [
          | inl (_, h) ↦ rw (← ok-injective h) refl
          | inr (_, h) ↦ elim (if-eq (text_eq udt_name (codes "geometry")) _ _ h) [
            | inl (_, k) ↦ cc
            | inr (_, k) ↦ cc
          ]
        ]
      ]
    ]

column_type-exportable :
    (o : Option Srid) (c : PgColumnSchema) {ty : PgDataType}
    → column_type o c ≡ ok ty
    → is_exportable ty ≡ true
unfolding is_exportable
column_type-exportable (some srid) c e = rw (← ok-injective e) refl
column_type-exportable none c e = pg_data_type-exportable c.data_type c.udt_name e

abbrev pub schema_name : PgColumnSchema → Text
schema_name c = c.column_name

build_columns-exportable :
    (srid_map : List (Text × Srid)) (pg_columns : List PgColumnSchema) {columns : List PgColumn}
    → build_columns srid_map pg_columns ≡ ok columns
    → (all (λ c. is_exportable c.data_type) columns ≡ true)
      × (map column_name columns ≡ map schema_name pg_columns)
unfolding build_columns
build_columns-exportable srid_map [] e = rw (← ok-injective e) (refl, refl)
build_columns-exportable srid_map (c ∷ pg_columns) e =
    let (ty, p, q) = >>=-eq-ok (column_type (srid_map_get srid_map c.column_name) c) _ e in
    let (is_nullable, _, r) = >>=-eq-ok (parse_is_nullable c.is_nullable) _ q in
    let (rest, s, u) = >>=-eq-ok (build_columns srid_map pg_columns) _ r in
    let (all_exportable, names) = build_columns-exportable srid_map pg_columns s in
    let here = column_type-exportable (srid_map_get srid_map c.column_name) c p in
    rw (← ok-injective u) (rw here all_exportable, ap (λ r. c.column_name ∷ r) names)

nonempty_names :
    (columns : List PgColumn) (pg_columns : List PgColumnSchema) (c : PgColumnSchema)
    → map column_name columns ≡ map schema_name (c ∷ pg_columns)
    → is_empty columns ≡ false
nonempty_names [] pg_columns c e = cc
nonempty_names (d ∷ columns) pg_columns c e = refl

-- A table that the catalog describes with at least one column has the columns of the catalog, by
-- name and in order, and can be exported, whatever the `WHERE` clause: the catalog's arrays are all
-- taken to be of one dimension.
pub fetch_table-exportable :
    (table_name : TableName) (c : PgColumnSchema) (pg_columns : List PgColumnSchema)
    (srid_rows : List (Text × ℕ)) (where_clause : Option Text) {t : PgCreateTable}
    → fetch_table table_name (c ∷ pg_columns) srid_rows ≡ ok t
    → (map column_name t.columns ≡ map schema_name (c ∷ pg_columns))
      × (is_ok (write_export_sql t where_clause) ≡ true)
unfolding fetch_table
fetch_table-exportable table_name c pg_columns srid_rows where_clause {t} e =
    let (srid_map, _, q) =
      >>=-eq-ok (srids_of (if need_srids (c ∷ pg_columns) then srid_rows else [])) _ e in
    let (columns, r, s) = >>=-eq-ok (build_columns srid_map (c ∷ pg_columns)) _ q in
    let (all_exportable, names) = build_columns-exportable srid_map (c ∷ pg_columns) r in
    let same : columns ≡ t.columns = ap (λ (x : PgCreateTable). x.columns) (ok-injective s) in
    (
      ap (map column_name) (sym same) ∙ names,
      is_ok-write_export_sql t where_clause
          ∙ ap (λ cs. not (is_empty cs) && all (λ x. is_exportable x.data_type) cs) (sym same)
          ∙ rw (nonempty_names columns pg_columns c names) all_exportable,
    )
