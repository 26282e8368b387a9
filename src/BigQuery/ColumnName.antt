-- ===== src/BigQuery/ColumnName.antt =====
-- dbcrossbarlib/src/drivers/bigquery_shared/column_name.rs: a name that keeps its case and ignores
-- it in comparisons. The text and its lower-case copy are stored in one string.
pub mod Validity
pub mod Comparison
use dbcrossbar.Base.{
  ℕ, ◌+◌, ◌/◌, Bool, true, false, ◌&&◌, ◌||◌, ◌++◌, List, [], ◌∷◌, map, Text, codes, leb, ◌==◌, all,
  take, drop, length, text_eq, Result, ok, err, if◌then◌else◌,
}

pub record ColumnName : Type 0 where
  pub data_text : Text

pub data NameError : Type 0 where
  bad_start bad_character : NameError

-- The methods of `char` that the code calls.
abbrev pub is_ascii_digit : ℕ → Bool
is_ascii_digit c = leb b'0' c && leb c b'9'

abbrev pub is_ascii_uppercase : ℕ → Bool
is_ascii_uppercase c = leb b'A' c && leb c b'Z'

abbrev pub is_ascii_lowercase : ℕ → Bool
is_ascii_lowercase c = leb b'a' c && leb c b'z'

abbrev pub is_ascii_alphabetic : ℕ → Bool
is_ascii_alphabetic c = is_ascii_uppercase c || is_ascii_lowercase c

abbrev pub is_ascii_alphanumeric : ℕ → Bool
is_ascii_alphanumeric c = is_ascii_alphabetic c || is_ascii_digit c

abbrev pub to_ascii_lowercase : ℕ → ℕ
to_ascii_lowercase c = if is_ascii_uppercase c then c + 32 else c

unfoldable pub as_str : ColumnName → Text
as_str n = take (length n.data_text / 2) n.data_text

unfoldable pub as_lowercase : ColumnName → Text
as_lowercase n = drop (length n.data_text / 2) n.data_text

unfoldable pub to_portable_name : ColumnName → Text
to_portable_name n = as_str n

unfoldable pub quoted : ColumnName → Text
quoted n = codes "`" ++ (as_str n ++ codes "`")

unfoldable pub javascript_quoted : ColumnName → Text
javascript_quoted n = codes "\"" ++ (as_str n ++ codes "\"")

-- `PartialEq::eq`.
unfoldable pub name_eq : ColumnName → ColumnName → Bool
name_eq a b = text_eq (as_lowercase a) (as_lowercase b)

-- The first test of `try_from`, on the first character if there is one.
abbrev pub starts_well : Text → Bool
starts_well [] = false
starts_well (c ∷ s) = c == b'_' || is_ascii_alphabetic c

-- The second test runs over the characters behind the first, which `chars.next()` took.
abbrev pub continues_well : Text → Bool
continues_well [] = true
continues_well (c ∷ s) = all (λ c. c == b'_' || is_ascii_alphanumeric c) s

unfoldable pub try_from : Text → Result NameError ColumnName
try_from s =
    if starts_well s
    then if continues_well s
      then ok (record { data_text = s ++ map to_ascii_lowercase s })
      else err NameError.bad_character
    else err NameError.bad_start
