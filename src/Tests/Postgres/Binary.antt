-- ===== src/Tests/Postgres/Binary.antt =====
-- CSV data in the binary format of PostgreSQL, at concrete files.
use dbcrossbar.Base.{
  ◌<◌, ◌≤◌, Text, codes, List, [], ◌∷◌, ◌++◌, true, false, Option, none, some, map, ok, err, ◌≡◌,
  refl,
}
use dbcrossbar.Schema.{wgs84}
use dbcrossbar.Bytes.{Bytes}
use dbcrossbar.FromCsvCell.{
  Parsers, bool_from_csv_cell, i16_from_csv_cell, i32_from_csv_cell, i64_from_csv_cell,
}
use dbcrossbar.FromCsvCell.Laws.{ReadsIntegers, from_csv_cell_bounds}
use dbcrossbar.Postgres.Types.{PgScalarDataType, scalar}
use dbcrossbar.Postgres.Column.{PgColumn}
use dbcrossbar.Postgres.Binary.ToPostgis.{Coordinate, Geometry, Geometries, Ewkb, try_to_postgis}
use dbcrossbar.Postgres.Binary.Coordinates.{
  from_postgis, without_lines, srid_of, try_to_postgis_lem,
}
use dbcrossbar.Postgres.CsvToBinary.{Crates, CopyError, copy_csv_to_pg_binary, file_header}
use dbcrossbar.Postgres.CsvToBinary.Reader.{Field, read_file}
use dbcrossbar.Postgres.CsvToBinary.Copy.{AreRowsOf, read_file-copy_csv_to_pg_binary}

reads_booleans :
    (bool_from_csv_cell (codes "Yes") ≡ some true)
    × (bool_from_csv_cell (codes "OFF") ≡ some false)
    × (bool_from_csv_cell (codes "10") ≡ none)
unfolding bool_from_csv_cell
reads_booleans = (refl, refl, refl)

reads_integers :
    (i16_from_csv_cell (codes "-32768") ≡ some 32768)
    × (i16_from_csv_cell (codes "32768") ≡ none)
    × (i16_from_csv_cell (codes "+7") ≡ some 7)
    × (i32_from_csv_cell (codes "-") ≡ none)
unfolding i16_from_csv_cell i32_from_csv_cell
reads_integers = (refl, refl, refl, refl)

-- Crates that read nothing.
abbrev no_parsers : Parsers
no_parsers = record {
  naive_date = λ _. none;
  f32 = λ _. none;
  f64 = λ _. none;
  geo_json = λ _. none;
  naive_date_time = λ _ _. none;
  date_time = λ _ _. none;
  uuid = λ _. none;
}

abbrev crates : Crates
crates = record {
  parsers = no_parsers;
  write_ewkb = λ _. [];
  hex_decode = λ _. none;
  json_from_str = λ _. none;
  json_to_string = λ _. [];
  cast_f32 = λ _. none;
}

abbrev columns : List PgColumn
columns =
    record { name = codes "id"; data_type = scalar PgScalarDataType.int; is_nullable = false }
    ∷ record { name = codes "name"; data_type = scalar PgScalarDataType.text; is_nullable = true }
    ∷ []

abbrev names : List Text
names = codes "id" ∷ codes "name" ∷ []

abbrev records : List (Option (List Text))
records = some (codes "1" ∷ codes "" ∷ []) ∷ some (codes "-2" ∷ codes "x" ∷ []) ∷ []

abbrev first_row : Bytes
first_row = 0 ∷ 2 ∷ 0 ∷ 0 ∷ 0 ∷ 4 ∷ 0 ∷ 0 ∷ 0 ∷ 1 ∷ 255 ∷ 255 ∷ 255 ∷ 255 ∷ []

abbrev second_row : Bytes
second_row = 0 ∷ 2 ∷ 0 ∷ 0 ∷ 0 ∷ 4 ∷ 255 ∷ 255 ∷ 255 ∷ 254 ∷ 0 ∷ 0 ∷ 0 ∷ 1 ∷ b'x' ∷ []

abbrev copied : Bytes
copied = file_header ++ (first_row ++ second_row)

copies : copy_csv_to_pg_binary crates columns (some names) records ≡ ok copied
unfolding copy_csv_to_pg_binary
copies = refl

read_file-copy_csv_to_pg_binary_example :
    (names ≡ map (λ (c : PgColumn). c.name) columns)
    × ((rows : List (List Field)) × (read_file copied ≡ some rows)
        × AreRowsOf crates columns records rows)
read_file-copy_csv_to_pg_binary_example =
    read_file-copy_csv_to_pg_binary crates columns names records (refl, (refl, tt)) copies

too_few_columns :
    copy_csv_to_pg_binary crates columns (some (codes "id" ∷ [])) []
    ≡ err (CopyError.column_count 1 2)
unfolding copy_csv_to_pg_binary
too_few_columns = refl

from_csv_cell_bounds_example :
    ReadsIntegers 32768 i16_from_csv_cell (codes "32768") (codes "+7")
    × ReadsIntegers 2147483648 i32_from_csv_cell (codes "32768") (codes "+7")
    × ReadsIntegers 9223372036854775808 i64_from_csv_cell (codes "32768") (codes "+7")
from_csv_cell_bounds_example = from_csv_cell_bounds b'3' (codes "2768") (codes "+7") refl

abbrev origin : Coordinate
origin = record { x = 0; y = 0 }

abbrev shape : Geometry
shape = Geometry.geometry_collection (Geometries.cons (Geometry.line origin origin) Geometries.nil)

try_to_postgis_lem_example :
    (4326 < 2147483648
      → (e : Ewkb) × (try_to_postgis shape wgs84 ≡ some e)
        × (srid_of e ≡ some 4326)
        × (from_postgis e ≡ without_lines shape))
    × (2147483648 ≤ 4326 → try_to_postgis shape wgs84 ≡ none)
try_to_postgis_lem_example = try_to_postgis_lem shape wgs84
