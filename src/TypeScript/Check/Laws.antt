-- ===== src/TypeScript/Check/Laws.antt =====
-- dbcrossbarlib/src/drivers/dbcrossbar_ts/ast.rs: what a source file that passes the checks is.
use dbcrossbar.Base.{Bool, true, false, not, ◌&&◌, ◌||◌, List, [], ◌∷◌, ◌++◌, map, Text}
use dbcrossbar.Base.{text_eq, all, any, ◌≡◌, refl, sym, ap, ap₂, ◌∙◌, arith}
use dbcrossbar.Base.{Result, ok, err, ◌>>=◌, is_ok, if◌then◌else◌}
use dbcrossbar.TypeScript.Ast.{Ty, Field, Definition, Definitions, ParseError}
use dbcrossbar.TypeScript.Ast.{definition_for_identifier}
use dbcrossbar.TypeScript.Check.{check_ty, check_fields, check, check_all}

-- No text stands twice in the list.
abbrev pub distinct : List Text → Bool
distinct [] = true
distinct (n ∷ ns) = all (λ m. not (text_eq m n)) ns && distinct ns

abbrev pub is_defined : Definitions → Text → Bool
is_defined ds n = is_ok (definition_for_identifier ds n)

-- Every name that the type refers to.
abbrev pub refs : Ty → List Text
refs (Ty.array t) = refs t
refs (Ty.ref id) = id ∷ []
refs (Ty.union t u) = refs t ++ refs u
refs _ = []

abbrev pub field_refs : List Field → List Text
field_refs [] = []
field_refs (f ∷ fs) = refs f.ty ++ field_refs fs

abbrev pub field_names : List Field → List Text
field_names fs = map (λ f. f.name) fs

-- What `check` asks of a definition, in words: its fields have different names, and its references
-- are to definitions of the file.
abbrev pub is_sound : Definitions → Definition → Bool
is_sound ds (Definition.interface i) =
    distinct (field_names i.fields) && all (is_defined ds) (field_refs i.fields)
is_sound ds (Definition.type_alias _ ty) = all (is_defined ds) (refs ty)

module _ {ℓ} {A : Type ℓ} (p : A → Bool) where
  pub all-append : (xs ys : List A) → all p (xs ++ ys) ≡ (all p xs && all p ys)
  all-append [] ys = refl
  all-append (x ∷ xs) ys = ground (arith, all-append xs ys)

  pub all-and : (q : A → Bool) (xs : List A) → all (λ x. p x && q x) xs ≡ (all p xs && all q xs)
  all-and q [] = refl
  all-and q (x ∷ xs) = ground (arith, all-and q xs)

pub all-ext {ℓ} :
    {A : Type ℓ} (p q : A → Bool) (xs : List A) → ((x : A) → p x ≡ q x) → all p xs ≡ all q xs
all-ext p q [] h = refl
all-ext p q (x ∷ xs) h = ap₂ ◌&&◌ (h x) (all-ext p q xs h)

is_ok-then : (m n : Result ParseError (Unit {0})) → is_ok (m >>= λ _. n) ≡ (is_ok m && is_ok n)
is_ok-then (ok tt) n = refl
is_ok-then (err e) n = refl

is_ok-then-done :
    {A : Type 0} (m : Result ParseError A)
    → is_ok (◌>>=◌ {B = Unit {0}} m (λ _. ok tt)) ≡ (is_ok m && true)
is_ok-then-done (ok a) = refl
is_ok-then-done (err e) = refl

pub is_ok-check_ty :
    (ds : Definitions) (t : Ty) → is_ok (check_ty ds t) ≡ all (is_defined ds) (refs t)
unfolding check_ty
is_ok-check_ty ds Ty.any = refl
is_ok-check_ty ds Ty.boolean = refl
is_ok-check_ty ds Ty.date = refl
is_ok-check_ty ds Ty.null = refl
is_ok-check_ty ds Ty.number = refl
is_ok-check_ty ds Ty.string = refl
is_ok-check_ty ds (Ty.array t) = is_ok-check_ty ds t
is_ok-check_ty ds (Ty.ref id) = is_ok-then-done (definition_for_identifier ds id)
is_ok-check_ty ds (Ty.union t u) =
    is_ok-then (check_ty ds t) (check_ty ds u)
    ∙ ap₂ ◌&&◌ (is_ok-check_ty ds t) (is_ok-check_ty ds u)
    ∙ sym (all-append (is_defined ds) (refs t) (refs u))

not-or : (a b : Bool) → not (a || b) ≡ (not a && not b)
not-or true b = refl
not-or false b = refl

-- The names that are in none of the fields before.
fresh : List Text → List Text → Bool
fresh seen ns = all (λ m. not (any (text_eq m) seen)) ns

fresh-cons :
    (n : Text) (seen ns : List Text)
    → fresh (n ∷ seen) ns ≡ (all (λ m. not (text_eq m n)) ns && fresh seen ns)
unfolding fresh
fresh-cons n seen ns =
    all-ext (λ m. not (any (text_eq m) (n ∷ seen)))
      (λ m. not (text_eq m n) && not (any (text_eq m) seen)) ns
      (λ m. not-or (text_eq m n) (any (text_eq m) seen))
    ∙ all-and (λ m. not (text_eq m n)) (λ m. not (any (text_eq m) seen)) ns

shuffle :
    (a b c d e f : Bool)
    → (a && (b && (((c && d) && e) && f))) ≡ (((a && d) && (c && e)) && (b && f))
shuffle a b c d e f = ground arith

is_ok-check_field :
    (ds : Definitions) (n : Text) (t : Bool) (m rest : Result ParseError (Unit {0}))
    → is_ok (if t then err (ParseError.duplicate_field n) else (m >>= λ _. rest))
      ≡ (not t && (is_ok m && is_ok rest))
is_ok-check_field ds n true m rest = refl
is_ok-check_field ds n false m rest = is_ok-then m rest

is_ok-check_fields :
    (ds : Definitions) (seen : List Text) (fs : List Field)
    → is_ok (check_fields ds seen fs) ≡ (
        (fresh seen (field_names fs) && distinct (field_names fs))
        && all (is_defined ds) (field_refs fs))
unfolding check_fields
is_ok-check_fields ds seen [] = unfold fresh in refl
is_ok-check_fields ds seen (f ∷ fs) =
    let rest = check_fields ds (f.name ∷ seen) fs in
    let D = all (is_defined ds) in
    is_ok-check_field ds f.name (any (text_eq f.name) seen) (check_ty ds f.ty) rest
    ∙ ap₂ (λ t r. not (any (text_eq f.name) seen) && (t && r)) (is_ok-check_ty ds f.ty)
        (is_ok-check_fields ds (f.name ∷ seen) fs
          ∙ ap (λ b. (b && distinct (field_names fs)) && D (field_refs fs))
              (fresh-cons f.name seen (field_names fs)))
    ∙ shuffle (not (any (text_eq f.name) seen)) (D (refs f.ty))
        (all (λ m. not (text_eq m f.name)) (field_names fs)) (fresh seen (field_names fs))
        (distinct (field_names fs)) (D (field_refs fs))
    ∙ ap₂ (λ a b. (a && distinct (field_names (f ∷ fs))) && b) (unfold fresh in refl)
        (sym (all-append (is_defined ds) (refs f.ty) (field_refs fs)))

all_fresh : (ns : List Text) → fresh [] ns ≡ true
unfolding fresh
all_fresh [] = refl
all_fresh (n ∷ ns) = all_fresh ns

is_ok-check : (ds : Definitions) (d : Definition) → is_ok (check ds d) ≡ is_sound ds d
unfolding check
is_ok-check ds (Definition.interface i) =
    is_ok-check_fields ds [] i.fields
    ∙ ap (λ b. (b && distinct (field_names i.fields)) && all (is_defined ds) (field_refs i.fields))
        (all_fresh (field_names i.fields))
is_ok-check ds (Definition.type_alias id ty) = is_ok-check_ty ds ty

-- The check of a list of definitions succeeds exactly when, in each of them, the fields of an
-- interface have different names and every name that a type refers to is defined in the file. So
-- whether it succeeds does not depend on the order in which the hash map yields its values.
pub is_ok-check_all :
    (ds : Definitions) (es : List Definition) → is_ok (check_all ds es) ≡ all (is_sound ds) es
unfolding check_all
is_ok-check_all ds [] = refl
is_ok-check_all ds (e ∷ es) =
    is_ok-then (check ds e) (check_all ds es) ∙ ap₂ ◌&&◌ (is_ok-check ds e) (is_ok-check_all ds es)
