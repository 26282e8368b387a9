-- ===== src/BigQuery/Table/Alignment.antt =====
-- A table with the columns of another, in the other's order.
use dbcrossbar.Base.{
  ◌≡◌, true, none, some, List, [], ◌∷◌, ok, err, Bool-cases, Option-cases, inl, inr, >>=-eq-ok,
  ok-injective, Result, arith, ap, sym, subst, ◌∙◌,
}
use dbcrossbar.BigQuery.ColumnName.{ColumnName, name_eq}
use dbcrossbar.BigQuery.Types.{display}
use dbcrossbar.BigQuery.Column as ColumnOps
use dbcrossbar.BigQuery.Column.{BqColumn, name, mode, bq_data_type, ColumnError}
use dbcrossbar.BigQuery.Column.Laws.{aligned_with_total}
use dbcrossbar.BigQuery.Table.{column_map_get, align_found, lift_column, aligned_with}

-- `c` stands in the list, and none behind it has its name.
pub data IsLast (n : ColumnName) (c : BqColumn) : List BqColumn → Type 0 where
  found :
      {cs : List BqColumn}
      → name_eq (name c) n ≡ true
      → column_map_get cs n ≡ none
      → IsLast n c (c ∷ cs)
  behind : {d : BqColumn} {cs : List BqColumn} → IsLast n c cs → IsLast n c (d ∷ cs)

pub column_map_get-IsLast :
    (n : ColumnName) (cs : List BqColumn) {c : BqColumn}
    → column_map_get cs n ≡ some c
    → IsLast n c cs
unfolding column_map_get
column_map_get-IsLast n [] e = cc
column_map_get-IsLast n (d ∷ cs) {c} e = elim (Option-cases (column_map_get cs n)) [
  | inr (later, q) ↦ behind (column_map_get-IsLast n cs (ground arith))
  | inl missing ↦ elim (Bool-cases (name_eq (name d) n)) [
    | inl same ↦
        let first : d ≡ c = ground arith in
        subst (λ x. IsLast n x (d ∷ cs)) first (found same missing)
    | inr other ↦ ground arith
  ]
]

IsLast-name_eq :
    {n : ColumnName} {c : BqColumn} {cs : List BqColumn} → IsLast n c cs → name_eq (name c) n ≡ true
IsLast-name_eq (found same _) = same
IsLast-name_eq (behind l) = IsLast-name_eq l

-- Column `b` stands for column `c` of the other table, and comes of a column of this one.
abbrev StandsFor : List BqColumn → BqColumn → BqColumn → Type 0
StandsFor self c b =
    (col : BqColumn) × IsLast (name c) col self
    × (name_eq (name b) (name c) ≡ true)
    × (mode b ≡ mode col)
    × (display (bq_data_type b) ≡ display (bq_data_type col))

abbrev pub Follows : List BqColumn → List BqColumn → List BqColumn → Type 0
Follows self [] [] = Unit
Follows self [] (_ ∷ _) = ⊥
Follows self (_ ∷ _) [] = ⊥
Follows self (c ∷ other) (b ∷ bs) = StandsFor self c b × Follows self other bs

lift_column-eq-ok :
    (r : Result ColumnError BqColumn) {b : BqColumn} → lift_column r ≡ ok b → r ≡ ok b
lift_column-eq-ok (ok a) e = ap ok (ok-injective e)
lift_column-eq-ok (err x) e = cc

column_StandsFor :
    (self : List BqColumn) (c col : BqColumn) {b : BqColumn}
    → IsLast (name c) col self
    → ColumnOps.aligned_with col c ≡ ok b
    → StandsFor self c b
column_StandsFor self c col {b} l e = elim (aligned_with_total col c) [
  | inl (_, failed) ↦ cc
  | inr (inl (_, _, failed)) ↦ cc
  | inr (inr (d, built, _, shown, named, moded)) ↦
      let same : d ≡ b = ok-injective (sym built ∙ e) in
      (col, l, rw (← same, named) (IsLast-name_eq l), rw (← same) moded, rw (← same) shown)
]

found_StandsFor :
    (self : List BqColumn) (c : BqColumn) {b : BqColumn}
    → align_found (column_map_get self (name c)) c ≡ ok b
    → StandsFor self c b
found_StandsFor self c e = elim (Option-cases (column_map_get self (name c))) [
  | inl missing ↦ ground arith
  | inr (col, q) ↦
      column_StandsFor self c col (column_map_get-IsLast (name c) self q)
        (lift_column-eq-ok (ColumnOps.aligned_with col c) (rw q at e))
]

-- Where it succeeds, the aligned table has one column for each of the other table, in the other's
-- order and of the same name up to case. Each comes of the last column of that name in the table
-- itself, whose mode it has, and is displayed with its type.
pub aligned_with-Follows :
    (self other : List BqColumn) {bs : List BqColumn}
    → aligned_with self other ≡ ok bs
    → Follows self other bs
unfolding aligned_with
aligned_with-Follows self [] e = rw (← ok-injective e) tt
aligned_with-Follows self (c ∷ other) e =
    let (b, p, q) = >>=-eq-ok (align_found (column_map_get self (name c)) c) _ e in
    let (bs, r, s) = >>=-eq-ok (aligned_with self other) _ q in
    rw (← ok-injective s) (found_StandsFor self c p, aligned_with-Follows self other r)
