-- ===== src/BigQuery/Grammar/Names.antt =====
-- Greedy repetitions, names and blanks, where what follows stops them.
use dbcrossbar.Peg.Spans.{all-span, StopsAt, span-append}
use dbcrossbar.BigQuery.ColumnName.{try_from}
use dbcrossbar.Base.{ℕ, ◌≡◌, true, [], ◌∷◌, ◌++◌, Text, ap, ok}
use dbcrossbar.BigQuery.ColumnName.Validity.{IsName, of_text, try_from-of_IsName}
use dbcrossbar.Peg.{matched, span}
use dbcrossbar.BigQuery.Grammar.{blanks, is_blank, is_name_part, field_name, is_name_start}
use dbcrossbar.BigQuery.Grammar.Spelling.{IsBlank}

-- What a field's name is parsed from is a column name, so the conversion does not panic.
pub expect-span :
    (c : ℕ) (ts : Text)
    → is_name_start c ≡ true
    → try_from (c ∷ (span is_name_part ts).0) ≡ ok (of_text (c ∷ (span is_name_part ts).0))
expect-span c ts h = try_from-of_IsName _ (h, all-span is_name_part ts)

pub blanks-append : (w r : Text) → IsBlank w → StopsAt is_blank r → blanks (w ++ r) ≡ r
unfolding blanks
blanks-append w r h stop = ap (λ p. p.1) (span-append is_blank w r h stop)

-- A name is read whole where a character follows that is no part of a name.
pub field_name-append :
    (x r : Text) → IsName x → StopsAt is_name_part r → field_name (x ++ r) ≡ matched (of_text x) r
unfolding field_name
field_name-append [] r h stop = cc h.0
field_name-append (c ∷ x) r h stop =
    rw (h.0, span-append is_name_part x r h.1 stop, try_from-of_IsName (c ∷ x) h)
