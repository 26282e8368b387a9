-- ===== src/TypeScript/Convert/Laws.antt =====
-- dbcrossbarlib/src/drivers/dbcrossbar_ts/ast.rs: the table that an interface is converted to.
use dbcrossbar.TypeScript.Convert.Termination.{step_defined}
use dbcrossbar.Base.{ℕ, suc, Bool, true, false, ◌||◌, List, [], ◌∷◌, none, some, Text}
use dbcrossbar.Base.{◌≡◌, refl, sym, ap, ◌∙◌, subst, arith, if◌then◌else◌}
use dbcrossbar.Schema.{DataType, StructFields, Column, Table, nil, field}
use dbcrossbar.TypeScript.Ast.{Ty, Field, Interface, Definition, Definitions, get}
use dbcrossbar.TypeScript.Convert.{
  Outcome, returned, raised, unfinished, ◌>>=◌, definition_to_data_type, identifier_to_data_type,
  fields_to_struct, ty_to_data_type, columns, table_of, definition_to_table, is_sql_null,
  to_possibly_optional_type,
}

abbrev is_null : Ty → Bool
is_null Ty.null = true
is_null _ = false

-- Does a value of the type have `null` among its possible values, as far as the source reads it?
abbrev pub accepts_null : Ty → Bool
accepts_null (Ty.union t u) = is_null t || is_null u
accepts_null _ = false

abbrev strip_null : Ty → Ty
strip_null (Ty.union t u) = if is_null u then t else if is_null t then u else Ty.union t u
strip_null t = t

-- What a column must be for a field, with the conversion of names at hand.
abbrev pub IsColumnFor : (Text → Outcome DataType) → Field → Column → Type 0
IsColumnFor lookup f c =
    (c.name ≡ f.name)
    × (c.is_nullable ≡ (f.optional || accepts_null f.ty))
    × (ty_to_data_type lookup (strip_null f.ty) ≡ returned c.data_type)
    × (c.comment ≡ none)

-- One column for each field, in the same order.
abbrev pub AreColumnsFor : (Text → Outcome DataType) → List Field → List Column → Type 0
AreColumnsFor lookup [] [] = Unit
AreColumnsFor lookup [] (_ ∷ _) = ⊥
AreColumnsFor lookup (_ ∷ _) [] = ⊥
AreColumnsFor lookup (f ∷ fs) (c ∷ cs) = IsColumnFor lookup f c × AreColumnsFor lookup fs cs

is_sql_null_lem : (t : Ty) → is_sql_null t ≡ is_null t
unfolding is_sql_null
is_sql_null_lem Ty.any = refl
is_sql_null_lem Ty.boolean = refl
is_sql_null_lem Ty.date = refl
is_sql_null_lem Ty.null = refl
is_sql_null_lem Ty.number = refl
is_sql_null_lem Ty.string = refl
is_sql_null_lem (Ty.array t) = refl
is_sql_null_lem (Ty.ref id) = refl
is_sql_null_lem (Ty.union t u) = refl

optional_type : (t : Ty) → to_possibly_optional_type t ≡ (accepts_null t, strip_null t)
unfolding to_possibly_optional_type
optional_type Ty.any = refl
optional_type Ty.boolean = refl
optional_type Ty.date = refl
optional_type Ty.null = refl
optional_type Ty.number = refl
optional_type Ty.string = refl
optional_type (Ty.array t) = refl
optional_type (Ty.ref id) = refl
optional_type (Ty.union t u) = rw (is_sql_null_lem t, is_sql_null_lem u) (ground arith)

-- Inversion of a sequence that returns.
returned->>= :
    {A B : Type 0} (m : Outcome A) (k : A → Outcome B) {b : B}
    → (m >>= k) ≡ returned b
    → (a : A) × (m ≡ returned a) × (k a ≡ returned b)
returned->>= (returned a) k h = (a, refl, h)
returned->>= (raised e) k h = absurd (cc)
returned->>= unfinished k h = absurd (cc)

returned_injective : {A : Type 0} {a b : A} → returned a ≡ returned b → a ≡ b
returned_injective h = cc

module _ (lookup : Text → Outcome DataType) where
  fields_to_struct-columns :
      (fs : List Field) (made : StructFields)
      → fields_to_struct lookup fs ≡ returned made
      → AreColumnsFor lookup fs (columns made)
  unfolding fields_to_struct columns
  fields_to_struct-columns [] nil h = tt
  fields_to_struct-columns [] (field n b ty rest) h = absurd (cc)
  fields_to_struct-columns (f ∷ fs) made h =
      let (optional, ty) = to_possibly_optional_type f.ty in
      let split = optional_type f.ty in
      let (data_type, converted, more) = returned->>= (ty_to_data_type lookup ty) _ h in
      let (rest, rest_made, last) = returned->>= (fields_to_struct lookup fs) _ more in
      subst (λ m. AreColumnsFor lookup (f ∷ fs) (columns m)) (returned_injective last)
        (
          (
            refl,
            ap (λ o. f.optional || o) (ap (λ r. r.0) split),
            subst (λ u. ty_to_data_type lookup u ≡ returned data_type) (ap (λ r. r.1) split)
                converted,
            refl,
          ),
          fields_to_struct-columns fs rest rest_made,
        )

struct_fields :
    (lookup : Text → Outcome DataType) (i : Interface) (fs : StructFields)
    → definition_to_data_type lookup (Definition.interface i) ≡ returned (DataType.struct fs)
    → fields_to_struct lookup i.fields ≡ returned fs
unfolding definition_to_data_type
struct_fields lookup i fs h =
    let (gs, made, same) = returned->>= (fields_to_struct lookup i.fields) _ h in cc

table_of-struct :
    (n : Text) (ty : DataType) {t : Table}
    → table_of n ty ≡ returned t
    → (fs : StructFields) × (ty ≡ DataType.struct fs)
      × (t ≡ record { name = n; columns = columns fs })
unfolding table_of
table_of-struct n (DataType.struct fs) h = (fs, refl, cc)
table_of-struct n ty h = absurd (cc)

-- A table that comes of an interface has its name, and one column for each field, in order: with the
-- name of the field, nullable exactly when the field is marked optional or `null` is one side of its
-- type, and with the portable type of what is left of the type without that side.
pub definition_to_table-interface :
    (f : ℕ) (ds : Definitions) (n : Text) (i : Interface) (t : Table)
    → get n ds ≡ some (Definition.interface i)
    → definition_to_table (suc f) ds n ≡ returned t
    → (t.name ≡ n) × AreColumnsFor (identifier_to_data_type f ds) i.fields t.columns
unfolding definition_to_table
definition_to_table-interface f ds n i t e h =
    let lookup = identifier_to_data_type f ds in
    let (ty, converted, shown) =
      returned->>= (identifier_to_data_type (suc f) ds n) (table_of n) h in
    let (fs, is_struct, is_table) = table_of-struct n ty shown in
    let from_fields : fields_to_struct lookup i.fields ≡ returned fs =
      struct_fields lookup i fs (
        sym (step_defined ds f n (Definition.interface i) e) ∙ converted ∙ ap returned is_struct) in
    subst (λ s. (s.name ≡ n) × AreColumnsFor lookup i.fields s.columns) (sym is_table)
      (refl, fields_to_struct-columns lookup i.fields fs from_fields)
