-- ===== src/Tests/Postgres/CreateTables.antt =====
-- dbcrossbarlib/src/drivers/postgres_shared/table/create_table_sql.rs, at concrete inputs.
use dbcrossbar.Postgres.SqlText.{ws_item, ws_opt}
use dbcrossbar.Base.{ℕ, List, ◌≢◌, ◌≡◌, refl, true, false, [], ◌∷◌, none, codes, Text}
use dbcrossbar.Peg.{matched, failed, panicked, out_of_fuel}
use dbcrossbar.Postgres.Types.{PgScalarDataType, array, scalar}
use dbcrossbar.FromCsvCell.{digits}
use dbcrossbar.Postgres.Column.{PgColumn}
use dbcrossbar.Postgres.Table.{PgCreateTable, display}
use dbcrossbar.Postgres.CreateTable.{parse}
use dbcrossbar.Postgres.CreateTable.RoundTrip.{parse-display}
use dbcrossbar.Postgres.CreateTable.Schemas.{parse_schema}
use dbcrossbar.Postgres.CreateTable.Fuel.{parse-ne-out_of_fuel}

abbrev example : Text
example =
    codes
      "-- This is an example table.\nCREATE TABLE example (\n    a text,\n    b integer,\n    c uuid NOT NULL,\n    e double precision,\n    f text[],\n    h geometry(Geometry,4326),\n    -- Just to be annoying:\n    i public.geometry(Geometry,3857),\n    \"k\"\"\" timestamp without time zone\n)\n"

parses_example :
    parse example
    ≡ matched
        (record {
          name = record { schema = none; table = codes "example" };
          columns =
              record {
                name = codes "a";
                data_type = scalar PgScalarDataType.text;
                is_nullable = true;
              }
              ∷ record {
                name = codes "b";
                data_type = scalar PgScalarDataType.int;
                is_nullable = true;
              }
              ∷ record {
                name = codes "c";
                data_type = scalar PgScalarDataType.uuid;
                is_nullable = false;
              }
              ∷ record {
                name = codes "e";
                data_type = scalar PgScalarDataType.double_precision;
                is_nullable = true;
              }
              ∷ record {
                name = codes "f";
                data_type = array 1 PgScalarDataType.text;
                is_nullable = true;
              }
              ∷ record {
                name = codes "h";
                data_type = scalar (PgScalarDataType.geometry (record { code = 4326 }));
                is_nullable = true;
              }
              ∷ record {
                name = codes "i";
                data_type = scalar (PgScalarDataType.geometry (record { code = 3857 }));
                is_nullable = true;
              }
              ∷ record {
                name = codes "k\"";
                data_type = scalar PgScalarDataType.timestamp_without_time_zone;
                is_nullable = true;
              }
              ∷ [];
          if_not_exists = false;
          temporary = false;
        })
        []
unfolding parse
parses_example = refl

parse_with_schema : parse (codes "CREATE TABLE public.example (a text);") ≡ failed
unfolding parse
parse_with_schema = refl

abbrev places : List PgColumn
places =
    record {
      name = codes "the \"id\"";
      data_type = scalar PgScalarDataType.int;
      is_nullable = false;
    }
    ∷ record { name = codes "tags"; data_type = array 1 PgScalarDataType.json; is_nullable = true }
    ∷ record {
      name = codes "at";
      data_type = scalar (PgScalarDataType.geometry (record { code = 4326 }));
      is_nullable = true;
    }
    ∷ []

abbrev wgs84_digits : ℕ → Text
wgs84_digits n = codes "4326"

parse-display_example :
    parse (
      display wgs84_digits (record {
        name = record { schema = none; table = codes "places" };
        columns = places;
        if_not_exists = false;
        temporary = false;
      }))
    ≡ matched
        (record {
          name = record { schema = none; table = codes "places" };
          columns = places;
          if_not_exists = false;
          temporary = false;
        })
        []
parse-display_example =
    parse-display wgs84_digits (codes "places") places
      (tt, ((refl, tt), ((refl, unfold digits in refl), tt)))

abbrev unlogged : Text
unlogged = codes "create unlogged table \"public.t\"(a int) ;"

abbrev unlogged_table : PgCreateTable
unlogged_table = record {
  name = record { schema = none; table = codes "public.t" };
  columns =
      record { name = codes "a"; data_type = scalar PgScalarDataType.int; is_nullable = true } ∷ [];
  if_not_exists = false;
  temporary = false;
}

parse_schema_example : unlogged_table.name.schema ≡ none
parse_schema_example = parse_schema unlogged unlogged_table [] (unfold parse in refl)

parse-ne-out_of_fuel_example :
    (parse unlogged ≢ out_of_fuel) × ((gap : Text) → ws_item (ws_opt gap) ≡ none)
parse-ne-out_of_fuel_example = parse-ne-out_of_fuel unlogged

-- A number that is no `u32` stops the program.
panics : parse (codes "CREATE TABLE t (a geometry(Point, 4294967296))") ≡ panicked
unfolding parse
panics = refl
