-- ===== src/Csv/Header/Laws.antt =====
-- What `csv_header_length` finds, and that more data does not change it.
use dbcrossbar.Base.{
  ℕ, suc, ◌+◌, ◌≡◌, refl, ◌↔◌, true, false, ◌==◌, Option, none, some, Text, [], ◌∷◌, ◌++◌, any,
  length, Result, ok, err, Bool-cases, inl, inr, arith, take-length_append, ==_iff, subst,
}
use dbcrossbar.Csv.Streams.{Error, quoted_headers}
use dbcrossbar.Csv.Header.{newline, quote, position, check_header, csv_header_length}

-- A text without newlines.
abbrev pub IsLine : Text → Type 0
IsLine s = any (λ b. b == newline) s ≡ false

-- Where a text is cut at its first newline.
pub data Cut : Text → Option ℕ → Type 0 where
  no_newline : {s : Text} → IsLine s → Cut s none
  newline_at : (line rest : Text) → IsLine line → Cut (line ++ newline ∷ rest) (some (length line))

Cut-cons :
    (b : ℕ) {s : Text} {o : Option ℕ}
    → (b == newline) ≡ false
    → Cut s o
    → Cut (b ∷ s) (elim o [ some n ↦ some (suc n) | none ↦ none ])
Cut-cons b h (no_newline l) = no_newline (rw h l)
Cut-cons b h (newline_at line rest l) = newline_at (b ∷ line) rest (rw h l)

position-Cut : (s : Text) → Cut s (position s)
unfolding position
position-Cut [] = no_newline refl
position-Cut (b ∷ s) = elim (Bool-cases (b == newline)) [
  | inl same ↦ rw ((==_iff b newline).0 same) (newline_at [] s refl)
  | inr other ↦ rw other (Cut-cons b other (position-Cut s))
]

-- Where the header of a text ends, and when there is none to be had.
pub data Header : Text → Result Error (Option ℕ) → Type 0 where
  incomplete : {s : Text} → IsLine s → Header s (ok none)
  complete :
      (line rest : Text)
      → IsLine line
      → any (λ b. b == quote) line ≡ false
      → Header (line ++ newline ∷ rest) (ok (some (length line + 1)))
  quoted :
      (line rest : Text)
      → IsLine line
      → any (λ b. b == quote) line ≡ true
      → Header (line ++ newline ∷ rest) (err quoted_headers)

check_header-Header : (s : Text) (o : Option ℕ) → Cut s o → Header s (check_header s o)
check_header-Header s none (no_newline l) = incomplete l
check_header-Header s (some n) (newline_at line rest l) =
    elim (Bool-cases (any (λ b. b == quote) line)) [
      | inl has ↦ rw (take-length_append line (newline ∷ rest)) (rw has (quoted line rest l has))
      | inr hasnt ↦
          rw (take-length_append line (newline ∷ rest)) (rw hasnt (complete line rest l hasnt))
    ]

pub csv_header_length-Header : (s : Text) → Header s (csv_header_length s)
unfolding csv_header_length
csv_header_length-Header s = check_header-Header s (position s) (position-Cut s)

position-line :
    (line rest : Text) → IsLine line → position (line ++ newline ∷ rest) ≡ some (length line)
unfolding position
position-line [] rest l = refl
position-line (b ∷ line) rest l = elim (Bool-cases (b == newline)) [
  | inl same ↦ ground arith
  | inr other ↦ rw other (rw (position-line line rest (ground arith)))
]

position-IsLine : (s : Text) → IsLine s → position s ≡ none
unfolding position
position-IsLine [] l = refl
position-IsLine (b ∷ s) l = elim (Bool-cases (b == newline)) [
  | inl same ↦ ground arith
  | inr other ↦ rw other (rw (position-IsLine s (ground arith)))
]

pub Header-csv_header_length :
    {s : Text} {r : Result Error (Option ℕ)} → Header s r → csv_header_length s ≡ r
unfolding csv_header_length
Header-csv_header_length (incomplete {s} l) = rw (position-IsLine s l)
Header-csv_header_length (complete line rest l q) =
    rw (position-line line rest l) (rw (take-length_append line (newline ∷ rest)) (rw q))
Header-csv_header_length (quoted line rest l q) =
    rw (position-line line rest l) (rw (take-length_append line (newline ∷ rest)) (rw q))

-- The length is that of the first line with its newline, if there is a newline; a quotation mark in
-- that line is an error; and without a newline there is no header yet.
pub csv_header_length_iff :
    (s : Text) (r : Result Error (Option ℕ)) → (csv_header_length s ≡ r) ↔ Header s r
csv_header_length_iff s r =
    (λ e. subst (Header s) e (csv_header_length-Header s), Header-csv_header_length)
