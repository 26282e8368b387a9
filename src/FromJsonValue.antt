-- ===== src/FromJsonValue.antt =====
-- dbcrossbarlib/src/from_json_value.rs: values as they stand in JSON.
use dbcrossbar.Base.{ℕ, Bool, Option, none, some, Text}
use dbcrossbar.Bytes.{i16_of_i64, i32_of_i64}
use dbcrossbar.FromCsvCell.{Parsers, i16_from_csv_cell, i32_from_csv_cell, i64_from_csv_cell}

-- `serde_json::Number`: what its two accessors answer.
pub record Number : Type 0 where
  pub as_f64 : Option ℕ
  pub as_i64 : Option ℕ

-- `serde_json::Value`.
mutual
  pub data Json : Type 0 where
    null : Json
    bool : Bool → Json
    number : Number → Json
    string : Text → Json
    array : Items → Json
    object : Members → Json

  pub data Items : Type 0 where
    nil : Items
    item : Json → Items → Items

  pub data Members : Type 0 where
    no_members : Members
    member : Text → Json → Members → Members

-- The method of the trait: a string is read as a cell.
unfoldable pub from_json_value : {A : Type 0} → (Text → Option A) → Json → Option A
from_json_value from_csv_cell (string s) = from_csv_cell s
from_json_value from_csv_cell _ = none

unfoldable pub bool_from_json_value : Json → Option Bool
bool_from_json_value (bool b) = some b
bool_from_json_value _ = none

abbrev pub and_then : Option ℕ → (ℕ → Option ℕ) → Option ℕ
and_then none k = none
and_then (some n) k = k n

-- `cast::f32`, of the cast crate, is a parameter.
unfoldable pub f32_from_json_value : Parsers → (ℕ → Option ℕ) → Json → Option ℕ
f32_from_json_value parsers cast_f32 (number n) = and_then n.as_f64 cast_f32
f32_from_json_value parsers cast_f32 (string s) = parsers.f32 s
f32_from_json_value parsers cast_f32 _ = none

unfoldable pub f64_from_json_value : Parsers → Json → Option ℕ
f64_from_json_value parsers (number n) = n.as_f64
f64_from_json_value parsers (string s) = parsers.f64 s
f64_from_json_value parsers _ = none

unfoldable pub i16_from_json_value : Json → Option ℕ
unfolding i16_of_i64 i16_from_csv_cell
i16_from_json_value (number n) = and_then n.as_i64 i16_of_i64
i16_from_json_value (string s) = i16_from_csv_cell s
i16_from_json_value _ = none

unfoldable pub i32_from_json_value : Json → Option ℕ
unfolding i32_of_i64 i32_from_csv_cell
i32_from_json_value (number n) = and_then n.as_i64 i32_of_i64
i32_from_json_value (string s) = i32_from_csv_cell s
i32_from_json_value _ = none

unfoldable pub i64_from_json_value : Json → Option ℕ
unfolding i64_from_csv_cell
i64_from_json_value (number n) = n.as_i64
i64_from_json_value (string s) = i64_from_csv_cell s
i64_from_json_value _ = none
