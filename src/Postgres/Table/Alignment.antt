-- ===== src/Postgres/Table/Alignment.antt =====
-- A table with the columns of another, in the other's order, and the table that is written to.
use dbcrossbar.Postgres.TableName.{TableName}
use dbcrossbar.Postgres.Types.{from_data_type, PgError}
use dbcrossbar.Schema.{Column, Table}
use dbcrossbar.Base.{
  ◌≡◌, refl, none, some, Text, text_eq, text_eq→eq, List, [], ◌∷◌, ok, Bool-cases, Option-cases,
  inl, inr, >>=-eq-ok, ok-injective, arith, ap, subst, ◌∙◌, map, Option, ap₂, Result,
}
use dbcrossbar.Postgres.Column.{PgColumn, from_column}
use dbcrossbar.Postgres.Table.{
  PgCreateTable, column_map_get, found_or, align_columns, aligned_with, from_columns,
  from_name_and_columns, from_pg_catalog_or_default, or_default, CheckCatalog,
}

-- `c` stands in the list, and none behind it has its name.
pub data IsLast (n : Text) (c : PgColumn) : List PgColumn → Type 0 where
  found : {cs : List PgColumn} → c.name ≡ n → column_map_get cs n ≡ none → IsLast n c (c ∷ cs)
  behind : {d : PgColumn} {cs : List PgColumn} → IsLast n c cs → IsLast n c (d ∷ cs)

column_map_get-IsLast :
    (n : Text) (cs : List PgColumn) {c : PgColumn} → column_map_get cs n ≡ some c → IsLast n c cs
unfolding column_map_get
column_map_get-IsLast n [] e = cc
column_map_get-IsLast n (d ∷ cs) {c} e = elim (Option-cases (column_map_get cs n)) [
  | inr (later, q) ↦ behind (column_map_get-IsLast n cs (ground arith))
  | inl missing ↦ elim (Bool-cases (text_eq d.name n)) [
    | inl same ↦
        let first : d ≡ c = ground arith in
        subst (λ x. IsLast n x (d ∷ cs)) first (found (text_eq→eq d.name n same) missing)
    | inr other ↦ ground arith
  ]
]

IsLast-name : {n : Text} {c : PgColumn} {cs : List PgColumn} → IsLast n c cs → c.name ≡ n
IsLast-name (found same _) = same
IsLast-name (behind l) = IsLast-name l

abbrev pub TakesLast : List PgColumn → List PgColumn → List PgColumn → Type 0
TakesLast self [] [] = Unit
TakesLast self [] (_ ∷ _) = ⊥
TakesLast self (_ ∷ _) [] = ⊥
TakesLast self (c ∷ other) (b ∷ bs) = IsLast c.name b self × TakesLast self other bs

found_IsLast :
    (self : List PgColumn) (n : Text) {b : PgColumn}
    → found_or (column_map_get self n) n ≡ ok b
    → IsLast n b self
found_IsLast self n e = elim (Option-cases (column_map_get self n)) [
  | inl missing ↦ ground arith
  | inr (col, q) ↦ column_map_get-IsLast n self (q ∙ ap some (ok-injective (rw q at e)))
]

align_columns-TakesLast :
    (self other : List PgColumn) {bs : List PgColumn}
    → align_columns self other ≡ ok bs
    → TakesLast self other bs
unfolding align_columns
align_columns-TakesLast self [] e = rw (← ok-injective e) tt
align_columns-TakesLast self (c ∷ other) e =
    let (b, p, q) = >>=-eq-ok (found_or (column_map_get self c.name) c.name) _ e in
    let (bs, r, s) = >>=-eq-ok (align_columns self other) _ q in
    rw (← ok-injective s) (found_IsLast self c.name p, align_columns-TakesLast self other r)

-- Where it succeeds, the aligned table has one column for each of the other table, in the other's
-- order, which is the last column of that name in the table itself, type and nullability included;
-- and it has the table's own name and flags.
pub aligned_with-TakesLast :
    (self other : PgCreateTable) {t : PgCreateTable}
    → aligned_with self other ≡ ok t
    → TakesLast self.columns other.columns t.columns
      × (t.name ≡ self.name)
      × (t.if_not_exists ≡ self.if_not_exists)
      × (t.temporary ≡ self.temporary)
unfolding aligned_with
aligned_with-TakesLast self other e =
    let (bs, p, q) = >>=-eq-ok (align_columns self.columns other.columns) _ e in
    rw (← ok-injective q) (align_columns-TakesLast self.columns other.columns p, refl, refl, refl)

abbrev pub column_name : PgColumn → Text
column_name c = c.name

abbrev pub portable_name : Column → Text
portable_name c = c.name

TakesLast-names :
    (self other bs : List PgColumn)
    → TakesLast self other bs
    → map column_name bs ≡ map column_name other
TakesLast-names self [] [] _ = refl
TakesLast-names self [] (b ∷ bs) no_more = elim no_more [ ]
TakesLast-names self (c ∷ other) [] no_more = elim no_more [ ]
TakesLast-names self (c ∷ other) (b ∷ bs) (l, ls) =
    ap₂ (λ x xs. x ∷ xs) (IsLast-name l) (TakesLast-names self other bs ls)

from_column-name : (c : Column) {b : PgColumn} → from_column c ≡ ok b → b.name ≡ c.name
unfolding from_column
from_column-name c e =
    let (ty, p, q) = >>=-eq-ok (from_data_type c.data_type) _ e in rw (← ok-injective q) refl

from_columns-names :
    (columns : List Column) {bs : List PgColumn}
    → from_columns columns ≡ ok bs
    → map column_name bs ≡ map portable_name columns
unfolding from_columns
from_columns-names [] e = rw (← ok-injective e) refl
from_columns-names (c ∷ columns) e =
    let (b, p, q) = >>=-eq-ok (from_column c) _ e in
    let (bs, r, s) = >>=-eq-ok (from_columns columns) _ q in
    rw (← ok-injective s)
      (ap₂ (λ x xs. x ∷ xs) (from_column-name c p) (from_columns-names columns r))

default-names :
    (table_name : TableName) (columns : List Column) {t : PgCreateTable}
    → from_name_and_columns table_name columns ≡ ok t
    → map column_name t.columns ≡ map portable_name columns
unfolding from_name_and_columns
default-names table_name columns e =
    let (bs, p, q) = >>=-eq-ok (from_columns columns) _ e in
    rw (← ok-injective q) (from_columns-names columns p)

or_default-names :
    (answer : Option PgCreateTable) (default : PgCreateTable) {t : PgCreateTable}
    → or_default answer default ≡ ok t
    → map column_name t.columns ≡ map column_name default.columns
or_default-names none default e = rw (← ok-injective e) refl
or_default-names (some dest) default {t} e =
    TakesLast-names dest.columns default.columns t.columns (aligned_with-TakesLast dest default e).0

-- Whatever the catalog answers, and whether or not it is asked, a table that is found to write to
-- has the columns of the portable table, by name and in its order.
pub from_pg_catalog_or_default-names :
    (check : CheckCatalog) (catalog : Result PgError (Option PgCreateTable))
    (table_name : TableName) (default : Table) {t : PgCreateTable}
    → from_pg_catalog_or_default check catalog table_name default ≡ ok t
    → map column_name t.columns ≡ map portable_name default.columns
unfolding from_pg_catalog_or_default
from_pg_catalog_or_default-names CheckCatalog.no catalog table_name default e =
    let (t, p, q) = >>=-eq-ok (from_name_and_columns table_name default.columns) _ e in
    rw (← ok-injective q) (default-names table_name default.columns p)
from_pg_catalog_or_default-names CheckCatalog.yes catalog table_name default e =
    let (d, p, q) = >>=-eq-ok (from_name_and_columns table_name default.columns) _ e in
    let (answer, _, s) = >>=-eq-ok catalog _ q in
    or_default-names answer d s ∙ default-names table_name default.columns p
