-- ===== src/Csv/Header.antt =====
-- dbcrossbarlib/src/concat.rs: `csv_header_length`.
pub mod Laws
use dbcrossbar.Csv.Streams.{Error, quoted_headers}
use dbcrossbar.Base.{
  ℕ, suc, ◌+◌, Bool, ◌==◌, Option, none, some, Text, [], ◌∷◌, any, take, Result, ok, err,
  if◌then◌else◌,
}

abbrev pub newline : ℕ
newline = 10

abbrev pub quote : ℕ
quote = b'"'

-- `data.iter().position(|b| *b == b'\n')`.
unfoldable pub position : Text → Option ℕ
position [] = none
position (b ∷ bytes) =
    if b == newline then some 0 else (elim (position bytes) [ some n ↦ some (suc n) | none ↦ none ])

abbrev pub check_header : Text → Option ℕ → Result Error (Option ℕ)
check_header bytes (some pos) =
    if any (λ b. b == quote) (take pos bytes) then err quoted_headers else ok (some (pos + 1))
check_header bytes none = ok none

unfoldable pub csv_header_length : Text → Result Error (Option ℕ)
unfolding position
csv_header_length bytes = check_header bytes (position bytes)
