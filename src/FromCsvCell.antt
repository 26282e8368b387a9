-- ===== src/FromCsvCell.antt =====
-- dbcrossbarlib/src/from_csv_cell.rs: values as they stand in the cells of a CSV file.
pub mod Laws
use dbcrossbar.Base.{
  ℕ, ◌+◌, ◌-◌, ◌*◌, ◌^◌, ◌%◌, ◌≤◌, Bool, true, false, ◌&&◌, ◌||◌, List, [], ◌∷◌, Option, none, some,
  Text, codes, map, text_eq, any, ltb, leb, ◌==◌, if◌then◌else◌,
}
use dbcrossbar.Bytes.{Bytes}
use dbcrossbar.Postgres.Binary.ToPostgis.{Geometry}

-- Simple case folding of the letters that the two regular expressions have: the long s, U+017F,
-- folds to `s`.
unfoldable pub fold : ℕ → ℕ
fold c = if leb 65 c && leb c 90 then c + 32 else if c == 383 then b's' else c

abbrev pub true_words : List Text
true_words = codes "1" ∷ codes "y" ∷ codes "yes" ∷ codes "on" ∷ codes "t" ∷ codes "true" ∷ []

abbrev pub false_words : List Text
false_words = codes "0" ∷ codes "n" ∷ codes "no" ∷ codes "off" ∷ codes "f" ∷ codes "false" ∷ []

-- `^(?i)(?:…|…)$`.
unfoldable pub is_match : List Text → Text → Bool
unfolding fold text_eq
is_match words cell = any (text_eq (map fold cell)) words

unfoldable pub bool_from_csv_cell : Text → Option Bool
unfolding is_match
bool_from_csv_cell cell =
    if is_match true_words cell
    then some true
    else if is_match false_words cell
    then some false
    else none

-- `str::parse` of a signed integer of w bits, as a pattern of w bits: an optional sign, at least one
-- digit, and no overflow on the way. A magnitude stands for its number, or for its negative.
abbrev pub is_digit : ℕ → Bool
is_digit c = leb 48 c && leb c 57

-- The digits, after those that made `n`; the magnitude may be `limit` at most.
unfoldable pub digits_from : ℕ → ℕ → Text → Option ℕ
digits_from limit n [] = some n
digits_from limit n (c ∷ s) =
    let m = n * 10 + (c - 48) in
    let rest = digits_from limit m s in
    if is_digit c then (if leb m limit then rest else none) else none

unfoldable pub digits : ℕ → Text → Option ℕ
unfolding digits_from
digits limit [] = none
digits limit (c ∷ s) = digits_from limit 0 (c ∷ s)

abbrev pub negative : ℕ → Option ℕ → Option ℕ
negative modulus none = none
negative modulus (some n) = some ((modulus - n) % modulus)

-- Over the number of patterns, 2^w, of which one half are not negative.
unfoldable pub parse_signed : ℕ → ℕ → Text → Option ℕ
unfolding digits
parse_signed half modulus [] = none
parse_signed half modulus (c ∷ s) =
    if c == b'-'
    then negative modulus (digits half s)
    else if c == b'+'
    then digits (half - 1) s
    else digits (half - 1) (c ∷ s)

unfoldable pub i16_from_csv_cell : Text → Option ℕ
unfolding parse_signed
i16_from_csv_cell cell = parse_signed 32768 65536 cell

unfoldable pub i32_from_csv_cell : Text → Option ℕ
unfolding parse_signed
i32_from_csv_cell cell = parse_signed 2147483648 4294967296 cell

unfoldable pub i64_from_csv_cell : Text → Option ℕ
unfolding parse_signed
i64_from_csv_cell cell = parse_signed 9223372036854775808 18446744073709551616 cell

-- What the crates geojson, chrono and uuid and the parser of floats read. A GeoJSON value is a
-- geometry or something else; a date is its days since 2000-01-01, a timestamp its microseconds
-- since then, where these are an `i64`, with the offset already applied.
pub data GeoJson : Type 0 where
  geometry : Geometry → GeoJson
  other : GeoJson

pub record Parsers : Type 0 where
  pub naive_date : Text → Option ℕ
  pub f32 : Text → Option ℕ
  pub f64 : Text → Option ℕ
  pub geo_json : Text → Option GeoJson
  -- `NaiveDateTime::parse_from_str` and `DateTime::parse_from_str`: the text, then the format.
  pub naive_date_time : Text → Text → Option (Option ℕ)
  pub date_time : Text → Text → Option (Option ℕ)
  pub uuid : Text → Option Bytes

-- A GeoJSON value whose conversion to geo_types fails is read as `none` by `geo_json`.
abbrev pub as_geometry : Option GeoJson → Option Geometry
as_geometry none = none
as_geometry (some (geometry g)) = some g
as_geometry (some other) = none

abbrev pub or_else {ℓ} : {A : Type ℓ} → Option A → Option A → Option A
or_else (some a) second = some a
or_else none second = second

unfoldable pub geometry_from_csv_cell : Parsers → Text → Option Geometry
geometry_from_csv_cell parsers cell = as_geometry (parsers.geo_json cell)

unfoldable pub naive_date_time_from_csv_cell : Parsers → Text → Option (Option ℕ)
naive_date_time_from_csv_cell parsers cell =
    or_else (parsers.naive_date_time cell (codes "%Y-%m-%d %H:%M:%S%.f"))
      (parsers.naive_date_time cell (codes "%Y-%m-%dT%H:%M:%S%.f"))

unfoldable pub date_time_from_csv_cell : Parsers → Text → Option (Option ℕ)
date_time_from_csv_cell parsers cell =
    or_else (parsers.date_time cell (codes "%Y-%m-%d %H:%M:%S%.f%#z"))
      (parsers.date_time cell (codes "%Y-%m-%dT%H:%M:%S%.f%#z"))
