-- ===== src/BigQuery/Grammar/Keywords.antt =====
-- The lexical rules on what may follow them: the end, a comma or a closing bracket.
use dbcrossbar.BigQuery.ColumnName.{try_from}
use dbcrossbar.Base.{◌≡◌, refl, List, [], ◌∷◌, ◌++◌, Text}
use dbcrossbar.BigQuery.Types.{BqNonArrayDataType}
use dbcrossbar.BigQuery.Grammar.{keyword, keywords, ColumnName, field_name}
use dbcrossbar.Peg.{matched}
use dbcrossbar.BigQuery.Grammar.Spelling.{Listed, here, later}

pub data Delimited : Text → Type 0 where
  at_end : Delimited []
  comma : (r : Text) → Delimited (b',' ∷ r)
  close : (r : Text) → Delimited (b'>' ∷ r)

-- A property of each entry of the table.
abbrev pub Each : (Text × BqNonArrayDataType → Type 0) → List (Text × BqNonArrayDataType) → Type 0
Each P [] = Unit
Each P (e ∷ es) = P e × Each P es

pub Each-Listed :
    (P : Text × BqNonArrayDataType → Type 0) {e : Text × BqNonArrayDataType}
    {es : List (Text × BqNonArrayDataType)}
    → Each P es
    → Listed e es
    → P e
Each-Listed P h here = h.0
Each-Listed P h (later m) = Each-Listed P h.1 m

-- Every keyword is read whole where a delimiter follows, longer ones before their prefixes.
keywords_read :
    (rest : Text)
    → Delimited rest
    → Each (λ (k, ty). keyword keywords (k ++ rest) ≡ matched ty rest) keywords
unfolding keyword
keywords_read rest at_end = (
  refl,
  (
    refl,
    (
      refl,
      (refl, (refl, (refl, (refl, (refl, (refl, (refl, (refl, (refl, (refl, (refl, tt))))))))))),
    ),
  ),
)
keywords_read rest (comma r) = (
  refl,
  (
    refl,
    (
      refl,
      (refl, (refl, (refl, (refl, (refl, (refl, (refl, (refl, (refl, (refl, (refl, tt))))))))))),
    ),
  ),
)
keywords_read rest (close r) = (
  refl,
  (
    refl,
    (
      refl,
      (refl, (refl, (refl, (refl, (refl, (refl, (refl, (refl, (refl, (refl, (refl, tt))))))))))),
    ),
  ),
)

pub keyword-Listed :
    {k : Text} {ty : BqNonArrayDataType} {rest : Text}
    → Listed (k, ty) keywords
    → Delimited rest
    → keyword keywords (k ++ rest) ≡ matched ty rest
keyword-Listed {rest} m d =
    Each-Listed (λ (k, ty). keyword keywords (k ++ rest) ≡ matched ty rest) (keywords_read rest d) m

-- As a name, a keyword is read whole too, and no blank follows it.
abbrev pub IsRead : Text → Text → Type 0
IsRead s rest = (n : ColumnName) × (field_name (s ++ rest) ≡ matched n rest)

keywords_named : (rest : Text) → Delimited rest → Each (λ (k, ty). IsRead k rest) keywords
unfolding field_name try_from
keywords_named rest at_end = (
  (_, refl),
  (
    (_, refl),
    (
      (_, refl),
      (
        (_, refl),
        (
          (_, refl),
          (
            (_, refl),
            (
              (_, refl),
              (
                (_, refl),
                ((_, refl), ((_, refl), ((_, refl), ((_, refl), ((_, refl), ((_, refl), tt)))))),
              ),
            ),
          ),
        ),
      ),
    ),
  ),
)
keywords_named rest (comma r) = (
  (_, refl),
  (
    (_, refl),
    (
      (_, refl),
      (
        (_, refl),
        (
          (_, refl),
          (
            (_, refl),
            (
              (_, refl),
              (
                (_, refl),
                ((_, refl), ((_, refl), ((_, refl), ((_, refl), ((_, refl), ((_, refl), tt)))))),
              ),
            ),
          ),
        ),
      ),
    ),
  ),
)
keywords_named rest (close r) = (
  (_, refl),
  (
    (_, refl),
    (
      (_, refl),
      (
        (_, refl),
        (
          (_, refl),
          (
            (_, refl),
            (
              (_, refl),
              (
                (_, refl),
                ((_, refl), ((_, refl), ((_, refl), ((_, refl), ((_, refl), ((_, refl), tt)))))),
              ),
            ),
          ),
        ),
      ),
    ),
  ),
)

pub field_name-Listed :
    {k : Text} {ty : BqNonArrayDataType} {rest : Text}
    → Listed (k, ty) keywords
    → Delimited rest
    → IsRead k rest
field_name-Listed {rest} m d = Each-Listed (λ (k, ty). IsRead k rest) (keywords_named rest d) m
