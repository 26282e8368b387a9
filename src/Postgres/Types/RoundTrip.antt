-- ===== src/Postgres/Types/RoundTrip.antt =====
-- A portable type comes back from PostgreSQL, but for its structs.
use dbcrossbar.Base.{ℕ, suc, ◌+◌, ◌%◌, ◌<◌, ◌≡◌, refl, Result, ok, ◌>>=◌, arith, >>=-assoc}
use dbcrossbar.Schema.{DataType}
use dbcrossbar.Postgres.Types.{
  PgError, array, count_dimensions, from_data_type, nest, rounds, scalar_from_data_type,
  to_data_type, two_to_31, two_to_32,
}

-- How deep the arrays of a type are nested.
unfoldable pub depth : DataType → ℕ
depth (DataType.array ty) = suc (depth ty)
depth _ = 0

-- The type with `Json` for the struct inside its arrays.
unfoldable pub structs_as_json : DataType → DataType
structs_as_json (DataType.array ty) = DataType.array (structs_as_json ty)
structs_as_json (DataType.struct _) = DataType.json
structs_as_json ty = ty

rounds-small : (n : ℕ) → n < two_to_31 → rounds n ≡ n
rounds-small n h = ground arith

wraps_not : (n : ℕ) → n < two_to_31 → (n + 1) % two_to_32 ≡ suc n
wraps_not n h = omega arith

-- What the rest of `from_data_type` makes of a count and the type inside.
abbrev from_counted : ℕ × DataType → Result PgError DataType
from_counted (count, nested) = scalar_from_data_type nested >>= λ s. to_data_type (array count s)

from_counted-count :
    (n : ℕ) (ty : DataType)
    → n + depth ty < two_to_31
    → from_counted (count_dimensions n ty) ≡ ok (nest n (structs_as_json ty))
unfolding count_dimensions depth structs_as_json to_data_type
from_counted-count n (DataType.array ty) h =
    rw (wraps_not n (omega arith), count_dimensions) (from_counted-count (suc n) ty (omega arith))
from_counted-count n _ h = rw (rounds-small n (omega arith))

-- A portable type whose arrays are nested less than 2^31 deep becomes a PostgreSQL type, which
-- becomes the same type again, but for a struct, which has become JSON.
pub to_data_type-from_data_type :
    (ty : DataType)
    → depth ty < two_to_31
    → (from_data_type ty >>= to_data_type) ≡ ok (structs_as_json ty)
unfolding from_data_type depth structs_as_json to_data_type
to_data_type-from_data_type (DataType.array ty) h =
    let (count, nested) = count_dimensions 1 ty in
    rw (>>=-assoc (scalar_from_data_type nested) (λ s. ok (array count s)) to_data_type)
      (from_counted-count 1 ty (omega arith))
to_data_type-from_data_type _ h = refl
