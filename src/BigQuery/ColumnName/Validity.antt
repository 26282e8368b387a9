-- ===== src/BigQuery/ColumnName/Validity.antt =====
-- Which texts are names, and what a name gives back.
use dbcrossbar.Base.{
  ℕ, ◌+◌, ◌/◌, ◌≡◌, ◌↔◌, Bool, true, false, ◌==◌, ◌&&◌, ◌||◌, leb, all, if◌then◌else◌, [], ◌∷◌,
  ◌++◌, map, Text, length, length-append, take-length_append, drop-length_append, ok, arith,
  Bool-cases, inl, inr, length-map,
}
use dbcrossbar.BigQuery.ColumnName.{
  ColumnName, to_ascii_lowercase, as_str, as_lowercase, starts_well, continues_well, try_from,
  to_portable_name,
}

-- The characters of names: `_`, `A` to `Z`, `a` to `z`, and behind the first also `0` to `9`.
abbrev is_first : ℕ → Bool
is_first c = c == 95 || ((leb 65 c && leb c 90) || (leb 97 c && leb c 122))

abbrev is_next : ℕ → Bool
is_next c =
    c == 95 || (((leb 65 c && leb c 90) || (leb 97 c && leb c 122)) || (leb 48 c && leb c 57))

abbrev begins : Text → Bool
begins [] = false
begins (c ∷ s) = is_first c

abbrev goes_on : Text → Bool
goes_on [] = true
goes_on (c ∷ s) = all is_next s

-- Of what the documentation quoted in the source asks for, the characters: it also forbids names of
-- more than 128 characters and some prefixes.
abbrev pub IsName : Text → Type 0
IsName s = (begins s ≡ true) × (goes_on s ≡ true)

-- `A` to `Z` become `a` to `z`.
abbrev pub in_lower_case : Text → Text
in_lower_case s = map (λ c. if leb 65 c && leb c 90 then c + 32 else c) s

-- The name that the code builds of a text.
abbrev pub of_text : Text → ColumnName
of_text s = record { data_text = s ++ map to_ascii_lowercase s }

length-data : (s : Text) → length (s ++ map to_ascii_lowercase s) / 2 ≡ length s
length-data s =
    omega (arith, length-append s (map to_ascii_lowercase s), length-map s to_ascii_lowercase)

pub as_str-of_text : (s : Text) → as_str (of_text s) ≡ s
unfolding as_str
as_str-of_text s = rw (length-data s) (take-length_append s _)

pub as_lowercase-of_text : (s : Text) → as_lowercase (of_text s) ≡ map to_ascii_lowercase s
unfolding as_lowercase
as_lowercase-of_text s = rw (length-data s) (drop-length_append s _)

pub try_from-of_IsName : (s : Text) → IsName s → try_from s ≡ ok (of_text s)
unfolding try_from
try_from-of_IsName s h = rw (h.0, h.1)

pub try_from-eq-ok : (s : Text) {n : ColumnName} → try_from s ≡ ok n → IsName s × (of_text s ≡ n)
unfolding try_from
try_from-eq-ok s h = elim (Bool-cases (starts_well s)) [
  | inl start ↦ elim (Bool-cases (continues_well s)) [
    | inl next ↦ ((start, next), ground arith)
    | inr bad ↦ ground arith
  ]
  | inr bad ↦ ground arith
]

-- `try_from` succeeds exactly on the texts that begin with an underscore or a letter and go on with
-- underscores, letters and digits; the name then gives back the text, case included, both as itself
-- and as the portable name, and its copy for comparison is the text in lower case.
pub try_from-eq-ok_iff :
    (s : Text)
    → ((n : ColumnName) × (try_from s ≡ ok n)
        × (as_str n ≡ s)
        × (to_portable_name n ≡ s)
        × (as_lowercase n ≡ map to_ascii_lowercase s))
      ↔ IsName s
unfolding to_portable_name
try_from-eq-ok_iff s = (
  λ (n, made, _, _, _). (try_from-eq-ok s made).0,
  λ h. (
    of_text s,
    try_from-of_IsName s h,
    as_str-of_text s,
    as_str-of_text s,
    as_lowercase-of_text s,
  ),
)
