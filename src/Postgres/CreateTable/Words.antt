-- ===== src/Postgres/CreateTable/Words.antt =====
-- dbcrossbarlib/src/drivers/postgres_shared/table/create_table_sql.rs: identifiers in quotation marks.
use dbcrossbar.Base.{
  ℕ, ◌≡◌, refl, true, false, Text, [], ◌∷◌, ◌++◌, ◌==◌, Bool-cases, inl, inr, ==_iff, append_assoc,
  arith,
}
use dbcrossbar.Peg.{matched}
use dbcrossbar.Postgres.Quote.{double, double_quote, display_ident, IsClosed}
use dbcrossbar.Postgres.SqlText.{quoted_body, replace, quoted_identifier, identifier}

quote_refl : (c : ℕ) → (c == c) ≡ true
quote_refl c = ground arith

closed_body : (r : Text) → IsClosed double_quote r → quoted_body true r ≡ ([], double_quote ∷ r)
unfolding quoted_body
closed_body [] h = refl
closed_body (c ∷ r) h = rw h

quoted_body-double :
    (s r : Text)
    → IsClosed double_quote r
    → quoted_body false (double double_quote s ++ double_quote ∷ r)
      ≡ (double double_quote s, double_quote ∷ r)
unfolding quoted_body double
quoted_body-double [] r h = closed_body r h
quoted_body-double (c ∷ s) r h = elim (Bool-cases (c == double_quote)) [
  | inl same ↦ rw ((==_iff c double_quote).0 same) (rw (quoted_body-double s r h))
  | inr other ↦ rw other (rw other (rw (quoted_body-double s r h)))
]

replace-double : (s : Text) → replace false (double double_quote s) ≡ s
unfolding replace double
replace-double [] = refl
replace-double (c ∷ s) = elim (Bool-cases (c == double_quote)) [
  | inl same ↦ rw ((==_iff c double_quote).0 same) (rw (replace-double s))
  | inr other ↦ rw other (rw other (rw (replace-double s)))
]

-- What `Ident` writes is read as the same name.
pub identifier-display_ident :
    (s r : Text) → IsClosed double_quote r → identifier (display_ident s ++ r) ≡ matched s r
unfolding identifier quoted_identifier display_ident
identifier-display_ident s r h =
    rw (append_assoc (double double_quote s) (double_quote ∷ []) r)
      (rw (quoted_body-double s r h) (rw (replace-double s)))
