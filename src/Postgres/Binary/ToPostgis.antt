-- ===== src/Postgres/Binary/ToPostgis.antt =====
-- dbcrossbarlib/src/drivers/postgres/csv_to_binary/to_postgis.rs: geometries of the geo_types crate
-- as those of the postgis crate. A coordinate is the bits of its `f64`.
use dbcrossbar.Base.{ℕ, List, [], ◌∷◌, Option, none, some, map}
use dbcrossbar.Schema.{Srid}
use dbcrossbar.Bytes.{i32_of_usize}

-- A `Coordinate`, or a `Point` around one.
pub record Coordinate : Type 0 where
  pub x : ℕ
  pub y : ℕ

abbrev pub Points : Type 0
Points = List Coordinate

-- `geo_types::Polygon`, which has its exterior apart.
pub record Polygon : Type 0 where
  pub exterior : Points
  pub interiors : List Points

mutual
  pub data Geometry : Type 0 where
    point : Coordinate → Geometry
    line : Coordinate → Coordinate → Geometry
    line_string : Points → Geometry
    polygon : Polygon → Geometry
    multi_point : Points → Geometry
    multi_line_string : List Points → Geometry
    multi_polygon : List Polygon → Geometry
    geometry_collection : Geometries → Geometry

  pub data Geometries : Type 0 where
    nil : Geometries
    cons : Geometry → Geometries → Geometries

-- The geometries of `postgis::ewkb`, each with an optional `i32` for its coordinate system.
abbrev pub EwkbSrid : Type 0
EwkbSrid = Option ℕ

pub record EwkbPoint : Type 0 where
  pub x : ℕ
  pub y : ℕ
  pub srid : EwkbSrid

pub record EwkbLineString : Type 0 where
  pub points : List EwkbPoint
  pub srid : EwkbSrid

pub record EwkbPolygon : Type 0 where
  pub rings : List EwkbLineString
  pub srid : EwkbSrid

mutual
  pub data Ewkb : Type 0 where
    point : EwkbPoint → Ewkb
    line_string : EwkbLineString → Ewkb
    polygon : EwkbPolygon → Ewkb
    multi_point : List EwkbPoint → EwkbSrid → Ewkb
    multi_line_string : List EwkbLineString → EwkbSrid → Ewkb
    multi_polygon : List EwkbPolygon → EwkbSrid → Ewkb
    geometry_collection : Ewkbs → EwkbSrid → Ewkb

  pub data Ewkbs : Type 0 where
    nil : Ewkbs
    cons : Ewkb → Ewkbs → Ewkbs

unfoldable pub point_to_postgis : Coordinate → EwkbPoint
point_to_postgis p = record { x = p.x; y = p.y; srid = none }

unfoldable pub line_to_postgis : Coordinate → Coordinate → EwkbLineString
unfolding point_to_postgis
line_to_postgis start end = record {
  points = point_to_postgis start ∷ point_to_postgis end ∷ [];
  srid = none;
}

unfoldable pub line_string_to_postgis : Points → EwkbLineString
unfolding point_to_postgis
line_string_to_postgis ps = record { points = map point_to_postgis ps; srid = none }

unfoldable pub polygon_to_postgis : Polygon → EwkbPolygon
unfolding line_string_to_postgis
polygon_to_postgis p = record {
  rings = line_string_to_postgis p.exterior ∷ map line_string_to_postgis p.interiors;
  srid = none;
}

unfoldable mutual
  unfolding point_to_postgis line_to_postgis line_string_to_postgis polygon_to_postgis

  pub to_postgis : Geometry → Ewkb
  to_postgis (Geometry.point p) = Ewkb.point (point_to_postgis p)
  to_postgis (Geometry.line p q) = Ewkb.line_string (line_to_postgis p q)
  to_postgis (Geometry.line_string ps) = Ewkb.line_string (line_string_to_postgis ps)
  to_postgis (Geometry.polygon p) = Ewkb.polygon (polygon_to_postgis p)
  to_postgis (Geometry.multi_point ps) = Ewkb.multi_point (map point_to_postgis ps) none
  to_postgis (Geometry.multi_line_string ls) =
      Ewkb.multi_line_string (map line_string_to_postgis ls) none
  to_postgis (Geometry.multi_polygon ps) = Ewkb.multi_polygon (map polygon_to_postgis ps) none
  to_postgis (Geometry.geometry_collection gs) =
      Ewkb.geometry_collection (geometries_to_postgis gs) none

  pub geometries_to_postgis : Geometries → Ewkbs
  geometries_to_postgis Geometries.nil = Ewkbs.nil
  geometries_to_postgis (Geometries.cons g gs) =
      Ewkbs.cons (to_postgis g) (geometries_to_postgis gs)

-- `match &mut converted`: the system of the outermost geometry is replaced.
unfoldable pub set_srid : EwkbSrid → Ewkb → Ewkb
set_srid new_srid (Ewkb.point p) = Ewkb.point (record p { srid = new_srid })
set_srid new_srid (Ewkb.line_string l) = Ewkb.line_string (record l { srid = new_srid })
set_srid new_srid (Ewkb.polygon p) = Ewkb.polygon (record p { srid = new_srid })
set_srid new_srid (Ewkb.multi_point ps _) = Ewkb.multi_point ps new_srid
set_srid new_srid (Ewkb.multi_line_string ls _) = Ewkb.multi_line_string ls new_srid
set_srid new_srid (Ewkb.multi_polygon ps _) = Ewkb.multi_polygon ps new_srid
set_srid new_srid (Ewkb.geometry_collection gs _) = Ewkb.geometry_collection gs new_srid

abbrev pub with_srid : Option ℕ → Ewkb → Option Ewkb
with_srid none converted = none
with_srid (some srid) converted = some (set_srid (some srid) converted)

-- `none` stands for the error on a code that is no `i32`.
unfoldable pub try_to_postgis : Geometry → Srid → Option Ewkb
unfolding to_postgis set_srid i32_of_usize
try_to_postgis geometry srid = with_srid (i32_of_usize srid.code) (to_postgis geometry)
