-- ===== src/TypeScript/Convert/Visits.antt =====
-- dbcrossbarlib/src/drivers/dbcrossbar_ts/ast.rs: which names a conversion goes on to, and what it
-- comes to if theirs are known.
use dbcrossbar.Base.{
  Bool, true, false, ◌&&◌, ◌||◌, List, [], ◌∷◌, ◌++◌, Option, none, some, Text, All, all,
  if◌then◌else◌,
}
use dbcrossbar.Base.{◌≡◌, refl, arith}
use dbcrossbar.Schema.{DataType}
use dbcrossbar.TypeScript.Ast.{Ty, Field, Definition, ParseError}
use dbcrossbar.TypeScript.Convert.{Outcome, returned, raised, unfinished, ◌>>=◌}
use dbcrossbar.TypeScript.Convert.{
  is_string, is_number, to_possibly_optional_type, expect_string_and_or_number_type, magic,
  ty_to_data_type, fields_to_struct, alias_to_data_type, definition_to_data_type,
}

-- The names that the conversion of a type looks up.
abbrev pub visits : Ty → List Text
visits (Ty.array t) = visits t
visits (Ty.ref id) = id ∷ []
visits _ = []

abbrev pub visits_fields : List Field → List Text
visits_fields [] = []
visits_fields (f ∷ fs) = visits (to_possibly_optional_type f.ty).1 ++ visits_fields fs

abbrev pub visits_alias : Option DataType → Ty → List Text
visits_alias (some special) ty = []
visits_alias none ty = visits ty

abbrev pub visits_definition : Definition → List Text
visits_definition (Definition.interface i) = visits_fields i.fields
visits_definition (Definition.type_alias id ty) = visits_alias (magic id) ty

-- Neither `null` nor a union is where a portable type is needed.
abbrev pub is_convertible : Ty → Bool
is_convertible (Ty.array t) = is_convertible t
is_convertible Ty.null = false
is_convertible (Ty.union _ _) = false
is_convertible _ = true

abbrev pub is_text_or_number : Ty → Bool
is_text_or_number Ty.number = true
is_text_or_number Ty.string = true
is_text_or_number (Ty.union t v) = (is_string t && is_number v) || (is_number t && is_string v)
is_text_or_number _ = false

abbrev pub is_convertible_alias : Option DataType → Ty → Bool
is_convertible_alias (some special) ty = is_text_or_number ty
is_convertible_alias none ty = is_convertible ty

abbrev pub is_convertible_definition : Definition → Bool
is_convertible_definition (Definition.interface i) =
    all (λ f. is_convertible (to_possibly_optional_type f.ty).1) i.fields
is_convertible_definition (Definition.type_alias id ty) = is_convertible_alias (magic id) ty

-- An outcome that is a value, or else one of the two others as far as these are allowed.
abbrev pub Allowed : {A : Type 0} → Bool → Bool → Outcome A → Type 0
Allowed r u (returned a) = Unit
Allowed r u (raised e) = r ≡ true
Allowed r u unfinished = u ≡ true

abbrev pub IsReturned : {A : Type 0} → Outcome A → Type 0
IsReturned (returned a) = Unit
IsReturned (raised e) = ⊥
IsReturned unfinished = ⊥

pub Allowed->>= :
    {A B : Type 0} (r u : Bool) (m : Outcome A) (k : A → Outcome B)
    → Allowed r u m
    → ((a : A) → Allowed r u (k a))
    → Allowed r u (m >>= k)
Allowed->>= r u (returned a) k h g = g a
Allowed->>= r u (raised e) k h g = h
Allowed->>= r u unfinished k h g = h

pub IsReturned->>= :
    {A B : Type 0} (m : Outcome A) (k : A → Outcome B)
    → IsReturned (m >>= k)
    → (a : A) × (m ≡ returned a) × IsReturned (k a)
IsReturned->>= (returned a) k h = (a, refl, h)
IsReturned->>= (raised e) k h = absurd h
IsReturned->>= unfinished k h = absurd h

pub IsReturned-first :
    {A B : Type 0} (m : Outcome A) (k : A → Outcome B) → IsReturned (m >>= k) → IsReturned m
IsReturned-first (returned a) k h = tt
IsReturned-first (raised e) k h = h
IsReturned-first unfinished k h = h

pub All-split : (P : Text → Type 0) (xs ys : List Text) → All P (xs ++ ys) → All P xs × All P ys
All-split P [] ys h = (tt, h)
All-split P (x ∷ xs) ys (p, h) = let (a, b) = All-split P xs ys h in ((p, a), b)

pub All-join : (P : Text → Type 0) (xs ys : List Text) → All P xs → All P ys → All P (xs ++ ys)
All-join P [] ys h g = g
All-join P (x ∷ xs) ys (p, h) g = (p, All-join P xs ys h g)

either :
    (r u a b : Bool) (e : ParseError)
    → (r || (a || b)) ≡ true
    → Allowed {A = Unit {0}} r u (if a then returned tt else if b then returned tt else raised e)
either r u true b e h = tt
either r u false true e h = tt
either r u false false e h = ground arith

magic_check :
    (r u : Bool) (ty : Ty) (id : Text)
    → (r || is_text_or_number ty) ≡ true
    → Allowed r u (expect_string_and_or_number_type ty id)
unfolding expect_string_and_or_number_type is_string is_number
magic_check r u Ty.any id h = ground arith
magic_check r u Ty.boolean id h = ground arith
magic_check r u Ty.date id h = ground arith
magic_check r u Ty.null id h = ground arith
magic_check r u Ty.number id h = tt
magic_check r u Ty.string id h = tt
magic_check r u (Ty.array t) id h = ground arith
magic_check r u (Ty.ref t) id h = ground arith
magic_check r u (Ty.union t v) id h =
    either r u (is_string t && is_number v) (is_number t && is_string v) (ParseError.reserved id) h

module _ (lookup : Text → Outcome DataType) where
  module _ (r u : Bool) where
    pub ty_to_data_type-Allowed :
        (t : Ty)
        → (r || is_convertible t) ≡ true
        → All (λ id. Allowed r u (lookup id)) (visits t)
        → Allowed r u (ty_to_data_type lookup t)
    unfolding ty_to_data_type
    ty_to_data_type-Allowed Ty.any c h = tt
    ty_to_data_type-Allowed Ty.boolean c h = tt
    ty_to_data_type-Allowed Ty.date c h = tt
    ty_to_data_type-Allowed Ty.number c h = tt
    ty_to_data_type-Allowed Ty.string c h = tt
    ty_to_data_type-Allowed Ty.null c h = ground arith
    ty_to_data_type-Allowed (Ty.union t v) c h = ground arith
    ty_to_data_type-Allowed (Ty.ref id) c h = h.0
    ty_to_data_type-Allowed (Ty.array t) c h =
        Allowed->>= r u (ty_to_data_type lookup t) (λ elem. returned (DataType.array elem))
          (ty_to_data_type-Allowed t c h) (λ a. tt)

    pub fields_to_struct-Allowed :
        (fs : List Field)
        → (r || all (λ f. is_convertible (to_possibly_optional_type f.ty).1) fs) ≡ true
        → All (λ id. Allowed r u (lookup id)) (visits_fields fs)
        → Allowed r u (fields_to_struct lookup fs)
    unfolding fields_to_struct
    fields_to_struct-Allowed [] c h = tt
    fields_to_struct-Allowed (f ∷ fs) c h =
        let (optional, ty) = to_possibly_optional_type f.ty in
        let (here, there) =
          All-split (λ id. Allowed r u (lookup id)) (visits ty) (visits_fields fs) h in
        Allowed->>= r u (ty_to_data_type lookup ty) _
          (ty_to_data_type-Allowed ty (ground arith) here)
          (λ a.
            Allowed->>= r u (fields_to_struct lookup fs) _
              (fields_to_struct-Allowed fs (ground arith) there) (λ b. tt))

    alias_to_data_type-Allowed :
        (special : Option DataType) (id : Text) (ty : Ty)
        → (r || is_convertible_alias special ty) ≡ true
        → All (λ n. Allowed r u (lookup n)) (visits_alias special ty)
        → Allowed r u (alias_to_data_type lookup special id ty)
    unfolding alias_to_data_type
    alias_to_data_type-Allowed (some special) id ty c h =
        Allowed->>= r u (expect_string_and_or_number_type ty id) _ (magic_check r u ty id c)
          (λ a. tt)
    alias_to_data_type-Allowed none id ty c h = ty_to_data_type-Allowed ty c h

    -- The outcome of a definition is no worse than those of the names it visits, if it has no
    -- type without a counterpart or the errors of such types are allowed.
    pub definition_to_data_type-Allowed :
        (d : Definition)
        → (r || is_convertible_definition d) ≡ true
        → All (λ n. Allowed r u (lookup n)) (visits_definition d)
        → Allowed r u (definition_to_data_type lookup d)
    unfolding definition_to_data_type
    definition_to_data_type-Allowed (Definition.interface i) c h =
        Allowed->>= r u (fields_to_struct lookup i.fields) _ (fields_to_struct-Allowed i.fields c h)
          (λ a. tt)
    definition_to_data_type-Allowed (Definition.type_alias id ty) c h =
        alias_to_data_type-Allowed (magic id) id ty c h

  visits-IsReturned :
      (t : Ty)
      → IsReturned (ty_to_data_type lookup t)
      → All (λ id. IsReturned (lookup id)) (visits t)
  unfolding ty_to_data_type
  visits-IsReturned (Ty.array t) h =
      visits-IsReturned t (IsReturned-first (ty_to_data_type lookup t) _ h)
  visits-IsReturned (Ty.ref id) h = (h, tt)
  visits-IsReturned Ty.any h = tt
  visits-IsReturned Ty.boolean h = tt
  visits-IsReturned Ty.date h = tt
  visits-IsReturned Ty.null h = tt
  visits-IsReturned Ty.number h = tt
  visits-IsReturned Ty.string h = tt
  visits-IsReturned (Ty.union _ _) h = tt

  visits_fields-IsReturned :
      (fs : List Field)
      → IsReturned (fields_to_struct lookup fs)
      → All (λ id. IsReturned (lookup id)) (visits_fields fs)
  unfolding fields_to_struct
  visits_fields-IsReturned [] h = tt
  visits_fields-IsReturned (f ∷ fs) h =
      let ty = (to_possibly_optional_type f.ty).1 in
      let (_, made, rest) = IsReturned->>= (ty_to_data_type lookup ty) _ h in
      All-join (λ id. IsReturned (lookup id)) (visits ty) (visits_fields fs)
        (visits-IsReturned ty (IsReturned-first (ty_to_data_type lookup ty) _ h))
        (visits_fields-IsReturned fs (IsReturned-first (fields_to_struct lookup fs) _ rest))

  visits_alias-IsReturned :
      (special : Option DataType) (id : Text) (ty : Ty)
      → IsReturned (alias_to_data_type lookup special id ty)
      → All (λ n. IsReturned (lookup n)) (visits_alias special ty)
  unfolding alias_to_data_type
  visits_alias-IsReturned (some special) id ty h = tt
  visits_alias-IsReturned none id ty h = visits-IsReturned ty h

  -- A definition that is converted has only such names in it.
  pub visits_definition-IsReturned :
      (d : Definition)
      → IsReturned (definition_to_data_type lookup d)
      → All (λ n. IsReturned (lookup n)) (visits_definition d)
  unfolding definition_to_data_type
  visits_definition-IsReturned (Definition.interface i) h =
      visits_fields-IsReturned i.fields (IsReturned-first (fields_to_struct lookup i.fields) _ h)
  visits_definition-IsReturned (Definition.type_alias id ty) h =
      visits_alias-IsReturned (magic id) id ty h
