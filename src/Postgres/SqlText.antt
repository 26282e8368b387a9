-- ===== src/Postgres/SqlText.antt =====
-- dbcrossbarlib/src/drivers/postgres_shared/table/create_table_sql.rs: the words, the blanks and the signs of
-- the parsing expression grammar of SQL.
use dbcrossbar.Base.{
  ℕ, ◌+◌, Bool, true, false, List, [], ◌∷◌, Option, none, some, Text, codes, length, ◌==◌, ◌&&◌,
  ◌||◌, leb, if◌then◌else◌,
}
use dbcrossbar.Peg.Repeats.{star}
use dbcrossbar.Peg.{Peg, matched, failed, panicked, bind, orelse, of_option, literal, span}
use dbcrossbar.BigQuery.Grammar.{is_name_start, is_name_part, is_blank}
use dbcrossbar.FromCsvCell.{is_digit, digits}
use dbcrossbar.Postgres.Quote.{double_quote}

-- `(!['\n'][_])* "\n"`: the rest of a comment, which has to end in a new line.
unfoldable pub skip_comment : Text → Option Text
skip_comment [] = none
skip_comment (c ∷ ts) = let rest = skip_comment ts in if c == 10 then some ts else rest

abbrev pub comment : Text → Option Text
comment [] = none
comment (c ∷ ts) = let rest = skip_comment ts in if c == b'-' then rest else none

-- One blank or one comment.
unfoldable pub ws_item : Text → Option Text
unfolding skip_comment
ws_item [] = none
ws_item (c ∷ ts) =
    let rest = comment ts in if is_blank c then some ts else if c == b'-' then rest else none

-- `ws()?`, which always matches. Each item takes a character at least.
unfoldable pub ws_opt : Text → Text
unfolding ws_item star
ws_opt ts = star ws_item (length ts) ts

abbrev pub or_fail : Option Text → Peg (Unit {0})
or_fail none = failed
or_fail (some rest) = matched tt (ws_opt rest)

-- `ws()`.
unfoldable pub ws : Text → Peg (Unit {0})
unfolding ws_item ws_opt
ws ts = or_fail (ws_item ts)

-- The ASCII letters in lower case.
abbrev pub lower : ℕ → ℕ
lower c = if leb 65 c && leb c 90 then c + 32 else c

unfoldable pub strip_ignoring_case : Text → Text → Option Text
strip_ignoring_case [] ts = some ts
strip_ignoring_case (a ∷ p) [] = none
strip_ignoring_case (a ∷ p) (c ∷ ts) =
    let rest = strip_ignoring_case p ts in if lower c == lower a then rest else none

-- The rule `i`, on a literal of ASCII characters.
unfoldable pub i : Text → Text → Peg (Unit {0})
unfolding strip_ignoring_case
i p ts = of_option (strip_ignoring_case p ts)

-- `(…)?`.
abbrev pub optional : (Text → Peg (Unit {0})) → Text → Peg (Unit {0})
optional rule ts = orelse (rule ts) (matched tt ts)

abbrev pub then_ws : Peg (Unit {0}) → Peg (Unit {0})
then_ws p = bind p λ _ r. ws r

-- `ws()?` before a sign.
abbrev pub sign : Text → Text → Peg (Unit {0})
sign s ts = literal s (ws_opt ts)

abbrev pub is_bare_part : ℕ → Bool
is_bare_part c = is_name_part c || c == b'$'

abbrev pub add : ℕ → Text × Text → Text × Text
add c (xs, rest) = (c ∷ xs, rest)

-- `(!['"'][_] / "\"\"")*`: what it matches, and what is left; the flag says that a quotation mark
-- has been read, which another one has to follow.
unfoldable pub quoted_body : Bool → Text → Text × Text
quoted_body false [] = ([], [])
quoted_body true [] = ([], double_quote ∷ [])
quoted_body false (c ∷ ts) =
    let inside = quoted_body false ts in
    let marked = quoted_body true ts in if c == double_quote then marked else add c inside
quoted_body true (c ∷ ts) =
    let inside = quoted_body false ts in
    if c == double_quote
    then add double_quote (add double_quote inside)
    else ([], double_quote ∷ c ∷ ts)

-- `quoted.replace("\"\"", "\"")`; the flag says that a quotation mark has been read.
unfoldable pub replace : Bool → Text → Text
replace false [] = []
replace true [] = double_quote ∷ []
replace false (c ∷ s) =
    let inside = replace false s in
    let marked = replace true s in if c == double_quote then marked else c ∷ inside
replace true (c ∷ s) =
    let inside = replace false s in
    if c == double_quote then double_quote ∷ inside else double_quote ∷ c ∷ inside

unfoldable pub bare_identifier : Text → Peg Text
unfolding span
bare_identifier [] = failed
bare_identifier (c ∷ ts) =
    let (xs, rest) = span is_bare_part ts in
    if is_name_start c then matched (c ∷ xs) rest else failed

unfoldable pub quoted_identifier : Text → Peg Text
unfolding literal quoted_body replace
quoted_identifier ts = bind (literal (codes "\"") ts) λ _ r₁.
    let (quoted, r₂) = quoted_body false r₁ in
    bind (literal (codes "\"") r₂) λ _ r₃. matched (replace false quoted) r₃

unfoldable pub identifier : Text → Peg Text
unfolding bare_identifier quoted_identifier
identifier ts = orelse (bare_identifier ts) (quoted_identifier ts)

-- `srid.parse().expect(…)` into a `u32`.
abbrev pub expect : Option ℕ → Text → Peg ℕ
expect (some n) rest = matched n rest
expect none rest = panicked

abbrev pub one_or_more : Text × Text → Peg Text
one_or_more ([], rest) = failed
one_or_more (c ∷ xs, rest) = matched (c ∷ xs) rest

unfoldable pub srid : Text → Peg ℕ
unfolding span digits
srid ts = bind (one_or_more (span is_digit ts)) λ ds r. expect (digits 4294967295 ds) r

-- Keywords with `ws()` between them.
unfoldable pub phrase : List Text → Text → Peg (Unit {0})
unfolding i ws
phrase [] ts = matched tt ts
phrase (k ∷ ks) ts = bind (ws ts) λ _ r₁. bind (i k r₁) λ _ r₂. phrase ks r₂
