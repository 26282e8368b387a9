-- ===== src/Postgres/Quote.antt =====
-- dbcrossbarlib/src/drivers/postgres_shared/mod.rs: `pg_quote` and the `Display` of `Ident`.
use dbcrossbar.Base.{
  drop, arith, ℕ, ◌≡◌, refl, Bool, true, false, ◌==◌, Option, none, some, Text, [], ◌∷◌, ◌++◌,
  if◌then◌else◌, Bool-cases, inl, inr, ==_iff, append_assoc,
}

-- `str::replace` of a character by two of it.
unfoldable pub double : ℕ → Text → Text
double quote [] = []
double quote (c ∷ s) =
    let rest = double quote s in if c == quote then quote ∷ quote ∷ rest else c ∷ rest

abbrev pub single_quote : ℕ
single_quote = 39

abbrev pub double_quote : ℕ
double_quote = b'"'

unfoldable pub pg_quote : Text → Text
unfolding double
pg_quote s = single_quote ∷ double single_quote s ++ single_quote ∷ []

-- The text of `Ident`.
unfoldable pub display_ident : Text → Text
unfolding double
display_ident s = double_quote ∷ double double_quote s ++ double_quote ∷ []

abbrev pub push : ℕ → Option (Text × Text) → Option (Text × Text)
push c none = none
push c (some (value, rest)) = some (c ∷ value, rest)

-- How PostgreSQL reads a literal, after the quotation mark that opens it: two marks stand for one,
-- and one closes it. The result is the value, and what comes after the literal; the flag says that
-- the last character was a mark.
unfoldable pub read_quoted : ℕ → Bool → Text → Option (Text × Text)
read_quoted quote false [] = none
read_quoted quote true [] = some ([], [])
read_quoted quote false (c ∷ s) =
    let inside = read_quoted quote false s in
    let marked = read_quoted quote true s in if c == quote then marked else push c inside
read_quoted quote true (c ∷ s) =
    let inside = read_quoted quote false s in if c == quote then push c inside else some ([], c ∷ s)

-- A literal with the mark that opens it.
unfoldable pub read_literal : ℕ → Text → Option (Text × Text)
unfolding read_quoted
read_literal quote [] = none
read_literal quote (c ∷ s) =
    let inside = read_quoted quote false s in if c == quote then inside else none

-- An apostrophe, which encloses the literals of texts in SQL.
abbrev pub apostrophe : ℕ
apostrophe = 39

-- What is next in a text is not the quotation mark.
abbrev pub IsClosed : ℕ → Text → Type 0
IsClosed quote [] = Unit
IsClosed quote (c ∷ s) = (c == quote) ≡ false

==_refl : (c : ℕ) → (c == c) ≡ true
==_refl c = ground arith

read_quoted-close :
    (quote : ℕ) (rest : Text) → IsClosed quote rest → read_quoted quote true rest ≡ some ([], rest)
unfolding read_quoted
read_quoted-close quote [] h = refl
read_quoted-close quote (c ∷ rest) h = rw h

read_quoted-double :
    (quote : ℕ) (s rest : Text)
    → IsClosed quote rest
    → read_quoted quote false (double quote s ++ quote ∷ rest) ≡ some (s, rest)
unfolding read_quoted double
read_quoted-double quote [] rest h = rw (==_refl quote) (read_quoted-close quote rest h)
read_quoted-double quote (c ∷ s) rest h = elim (Bool-cases (c == quote)) [
  | inl same ↦
      rw same
        (rw (==_refl quote) (rw (read_quoted-double quote s rest h) (rw ((==_iff c quote).0 same))))
  | inr other ↦ rw other (rw other (rw (read_quoted-double quote s rest h)))
]

-- PostgreSQL reads what `pg_quote` writes, between apostrophes, as the same text, and stops at its end,
-- whatever the text holds, unless another apostrophe follows at once: no text can close its own
-- literal.
pub read_literal-pg_quote :
    (s rest : Text)
    → IsClosed apostrophe rest
    → read_literal apostrophe (pg_quote s ++ rest) ≡ some (s, rest)
unfolding read_literal pg_quote
read_literal-pg_quote s rest h =
    rw (append_assoc (double single_quote s) (single_quote ∷ []) rest)
      (read_quoted-double single_quote s rest h)

-- PostgreSQL reads what `Ident` writes as the same name, and stops at its end, whatever the name
-- holds.
pub read_quoted-display_ident :
    (s rest : Text)
    → IsClosed double_quote rest
    → read_quoted double_quote false (drop 1 (display_ident s ++ rest)) ≡ some (s, rest)
unfolding display_ident
read_quoted-display_ident s rest h =
    rw (append_assoc (double double_quote s) (double_quote ∷ []) rest)
      (read_quoted-double double_quote s rest h)
