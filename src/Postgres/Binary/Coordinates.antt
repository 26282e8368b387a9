-- ===== src/Postgres/Binary/Coordinates.antt =====
-- dbcrossbarlib/src/drivers/postgres/csv_to_binary/to_postgis.rs: what the conversion keeps.
use dbcrossbar.Base.{
  ◌<◌, List, [], ◌∷◌, none, some, map, ◌≡◌, refl, ap, ap₂, ◌∙◌, arith, ltb, ◌≤◌, true, false,
}
use dbcrossbar.Schema.{Srid}
use dbcrossbar.Bytes.{i32_of_usize}
use dbcrossbar.Postgres.Binary.ToPostgis.{
  Coordinate, Points, Polygon, Geometry, Geometries, EwkbSrid, EwkbPoint, EwkbLineString,
  EwkbPolygon, Ewkb, Ewkbs, point_to_postgis, line_string_to_postgis, polygon_to_postgis,
  to_postgis, geometries_to_postgis, set_srid, try_to_postgis,
}

-- The geometry that an EWKB geometry shows, without its coordinate systems: a line of two points
-- is a line string there, and a polygon has its exterior first.
abbrev of_point : EwkbPoint → Coordinate
of_point p = record { x = p.x; y = p.y }

abbrev of_line_string : EwkbLineString → Points
of_line_string l = map of_point l.points

abbrev of_rings : List EwkbLineString → Polygon
of_rings [] = record { exterior = []; interiors = [] }
of_rings (l ∷ ls) = record { exterior = of_line_string l; interiors = map of_line_string ls }

abbrev of_polygon : EwkbPolygon → Polygon
of_polygon p = of_rings p.rings

mutual
  pub from_postgis : Ewkb → Geometry
  from_postgis (Ewkb.point p) = Geometry.point (of_point p)
  from_postgis (Ewkb.line_string l) = Geometry.line_string (of_line_string l)
  from_postgis (Ewkb.polygon p) = Geometry.polygon (of_polygon p)
  from_postgis (Ewkb.multi_point ps _) = Geometry.multi_point (map of_point ps)
  from_postgis (Ewkb.multi_line_string ls _) = Geometry.multi_line_string (map of_line_string ls)
  from_postgis (Ewkb.multi_polygon ps _) = Geometry.multi_polygon (map of_polygon ps)
  from_postgis (Ewkb.geometry_collection gs _) = Geometry.geometry_collection (all_from_postgis gs)

  pub all_from_postgis : Ewkbs → Geometries
  all_from_postgis Ewkbs.nil = Geometries.nil
  all_from_postgis (Ewkbs.cons g gs) = Geometries.cons (from_postgis g) (all_from_postgis gs)

-- A line as the string of its two ends, anywhere in a geometry.
mutual
  pub without_lines : Geometry → Geometry
  without_lines (Geometry.line p q) = Geometry.line_string (p ∷ q ∷ [])
  without_lines (Geometry.geometry_collection gs) =
      Geometry.geometry_collection (all_without_lines gs)
  without_lines g = g

  pub all_without_lines : Geometries → Geometries
  all_without_lines Geometries.nil = Geometries.nil
  all_without_lines (Geometries.cons g gs) =
      Geometries.cons (without_lines g) (all_without_lines gs)

-- The coordinate system of a geometry as a whole.
abbrev pub srid_of : Ewkb → EwkbSrid
srid_of (Ewkb.point p) = p.srid
srid_of (Ewkb.line_string l) = l.srid
srid_of (Ewkb.polygon p) = p.srid
srid_of (Ewkb.multi_point _ s) = s
srid_of (Ewkb.multi_line_string _ s) = s
srid_of (Ewkb.multi_polygon _ s) = s
srid_of (Ewkb.geometry_collection _ s) = s

map_back {ℓ κ} :
    {A : Type ℓ} {B : Type κ} (f : A → B) (g : B → A) (xs : List A)
    → ((x : A) → g (f x) ≡ x)
    → map g (map f xs) ≡ xs
map_back f g [] h = refl
map_back f g (x ∷ xs) h = ap₂ (λ y ys. y ∷ ys) (h x) (map_back f g xs h)

line_string_back : (ps : Points) → of_line_string (line_string_to_postgis ps) ≡ ps
unfolding line_string_to_postgis point_to_postgis
line_string_back ps = map_back point_to_postgis of_point ps (λ p. refl)

polygon_back : (p : Polygon) → of_polygon (polygon_to_postgis p) ≡ p
unfolding polygon_to_postgis
polygon_back p =
    ap₂ (λ e is. record { exterior = e; interiors = is }) (line_string_back p.exterior)
      (map_back line_string_to_postgis of_line_string p.interiors line_string_back)

mutual
  unfolding from_postgis without_lines to_postgis

  from_postgis-to_postgis : (g : Geometry) → from_postgis (to_postgis g) ≡ without_lines g
  from_postgis-to_postgis (Geometry.point p) = refl
  from_postgis-to_postgis (Geometry.line p q) = refl
  from_postgis-to_postgis (Geometry.line_string ps) = ap Geometry.line_string (line_string_back ps)
  from_postgis-to_postgis (Geometry.polygon p) = ap Geometry.polygon (polygon_back p)
  from_postgis-to_postgis (Geometry.multi_point ps) =
      ap Geometry.multi_point (map_back point_to_postgis of_point ps (λ p. refl))
  from_postgis-to_postgis (Geometry.multi_line_string ls) =
      ap Geometry.multi_line_string
        (map_back line_string_to_postgis of_line_string ls line_string_back)
  from_postgis-to_postgis (Geometry.multi_polygon ps) =
      ap Geometry.multi_polygon (map_back polygon_to_postgis of_polygon ps polygon_back)
  from_postgis-to_postgis (Geometry.geometry_collection gs) =
      ap Geometry.geometry_collection (all_from_postgis-to_postgis gs)

  all_from_postgis-to_postgis :
      (gs : Geometries) → all_from_postgis (geometries_to_postgis gs) ≡ all_without_lines gs
  all_from_postgis-to_postgis Geometries.nil = refl
  all_from_postgis-to_postgis (Geometries.cons g gs) =
      ap₂ Geometries.cons (from_postgis-to_postgis g) (all_from_postgis-to_postgis gs)

set_srid-lem :
    (s : EwkbSrid) (g : Ewkb)
    → (srid_of (set_srid s g) ≡ s) × (from_postgis (set_srid s g) ≡ from_postgis g)
unfolding set_srid from_postgis
set_srid-lem s (Ewkb.point p) = (refl, refl)
set_srid-lem s (Ewkb.line_string l) = (refl, refl)
set_srid-lem s (Ewkb.polygon p) = (refl, refl)
set_srid-lem s (Ewkb.multi_point ps _) = (refl, refl)
set_srid-lem s (Ewkb.multi_line_string ls _) = (refl, refl)
set_srid-lem s (Ewkb.multi_polygon ps _) = (refl, refl)
set_srid-lem s (Ewkb.geometry_collection gs _) = (refl, refl)

-- A geometry whose code of the coordinate system is below 2^31 is converted, and no other: the
-- result has that code, and its shape and coordinates are those of the geometry, with every line
-- as the string of its two ends.
pub try_to_postgis_lem :
    (g : Geometry) (srid : Srid)
    → (srid.code < 2147483648
        → (e : Ewkb) × (try_to_postgis g srid ≡ some e)
          × (srid_of e ≡ some srid.code)
          × (from_postgis e ≡ without_lines g))
      × (2147483648 ≤ srid.code → try_to_postgis g srid ≡ none)
unfolding try_to_postgis i32_of_usize
try_to_postgis_lem g srid = (
  λ small.
      let fits : ltb srid.code 2147483648 ≡ true = ground arith in
      let (same_srid, same_shape) = set_srid-lem (some srid.code) (to_postgis g) in
      (
        set_srid (some srid.code) (to_postgis g),
        rw fits,
        same_srid,
        same_shape ∙ from_postgis-to_postgis g,
      ),
  λ large. let no_fit : ltb srid.code 2147483648 ≡ false = ground arith in rw no_fit,
)
