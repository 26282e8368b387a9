-- ===== src/TypeScript/Convert/Termination.antt =====
-- dbcrossbarlib/src/drivers/dbcrossbar_ts/ast.rs: when the recursion of `identifier_to_data_type`
-- comes to an end.
use dbcrossbar.Base.{
  ℕ, zero, suc, ◌<◌, true, false, List, [], ◌∷◌, none, some, Text, All, Bool-cases, text_eq,
  text_eq→eq,
}
use dbcrossbar.Base.{◌≡◌, ◌≢◌, refl, sym, subst, arith, inl, inr, ◌⊎◌, Option-cases}
use dbcrossbar.Schema.{DataType}
use dbcrossbar.TypeScript.Ast.{Definition, Definitions, get, definition_for_identifier}
use dbcrossbar.TypeScript.Convert.{
  Outcome, returned, raised, unfinished, definition_to_data_type, identifier_to_data_type,
}
use dbcrossbar.TypeScript.Convert.Visits.{
  Allowed, IsReturned, visits_definition, is_convertible_definition,
  definition_to_data_type-Allowed, visits_definition-IsReturned,
}

-- A level for each name, below which the definition refers to others: no reference leads back.
abbrev pub IsRanked : Definitions → (Text → ℕ) → Type 0
IsRanked ds rank =
    (n : Text) (d : Definition)
    → get n ds ≡ some d
    → All (λ m. rank m < rank n) (visits_definition d)

-- Every definition has a counterpart among the portable types, if those it refers to have.
abbrev pub IsConvertible : Definitions → Type 0
IsConvertible ds =
    (n : Text) (d : Definition)
    → get n ds ≡ some d
    → (is_convertible_definition d ≡ true)
      × All (λ m. (e : Definition) × (get m ds ≡ some e)) (visits_definition d)

abbrev pub Any : (Text → Type 0) → List Text → Type 0
Any P [] = ⊥
Any P (n ∷ ns) = P n ⊎ Any P ns

-- Names that are defined, each in terms of another of them.
abbrev pub IsCyclic : Definitions → (Text → Type 0) → Type 0
IsCyclic ds S =
    (n : Text) → S n → (d : Definition) × (get n ds ≡ some d) × Any S (visits_definition d)

-- What holds of every entry holds of the one that is found.
pub get-All :
    (P : Text → Definition → Type 0) (ds : Definitions) (n : Text) {d : Definition}
    → All (λ (e : Text × Definition). P e.0 e.1) ds
    → get n ds ≡ some d
    → P n d
unfolding get
get-All P [] n h found_it = absurd (cc)
get-All P ((k, c) ∷ ds) n {d} (here, h) found_it = elim (Bool-cases (text_eq k n)) [
  | inl same ↦
      let one : c ≡ d = ground arith in
      subst (λ (m : Text). P m d) (text_eq→eq k n same) (subst (P k) one here)
  | inr other ↦ get-All P ds n h (ground arith)
]

All-map : {P Q : Text → Type 0} (ns : List Text) → ((n : Text) → P n → Q n) → All P ns → All Q ns
All-map [] f h = tt
All-map (n ∷ ns) f (p, h) = (f n p, All-map ns f h)

ends : {A : Type 0} (m : Outcome A) → Allowed true false m → m ≢ unfinished
ends (returned a) h e = cc
ends (raised x) h e = cc
ends unfinished h e = cc

both :
    {A : Type 0} (m : Outcome A)
    → Allowed true false m
    → Allowed false true m
    → (a : A) × (m ≡ returned a)
both (returned a) h g = (a, refl)
both (raised x) h g = absurd (cc)
both unfinished h g = absurd (cc)

neither : {A : Type 0} (m : Outcome A) → (IsReturned m → ⊥) → Allowed false true m → m ≡ unfinished
neither (returned a) h g = absurd (h tt)
neither (raised x) h g = absurd (cc)
neither unfinished h g = refl

module _ (ds : Definitions) where
  pub step_defined :
      (f : ℕ) (n : Text) (d : Definition)
      → get n ds ≡ some d
      → identifier_to_data_type (suc f) ds n
        ≡ definition_to_data_type (identifier_to_data_type f ds) d
  unfolding identifier_to_data_type definition_for_identifier
  step_defined f n d e = rw e

  no_fuel : (n : Text) → IsReturned (identifier_to_data_type zero ds n) → ⊥
  unfolding identifier_to_data_type
  no_fuel n h = h

  step_undefined :
      (f : ℕ) (n : Text)
      → get n ds ≡ none
      → Allowed true false (identifier_to_data_type (suc f) ds n)
  unfolding identifier_to_data_type definition_for_identifier
  step_undefined f n e = rw e refl

  -- Fuel above the level of a name is enough.
  ranked-Allowed :
      (rank : Text → ℕ)
      → IsRanked ds rank
      → (f : ℕ) (n : Text) → rank n < f
      → Allowed true false (identifier_to_data_type f ds n)
  ranked-Allowed rank ranked zero n lt = absurd (omega arith)
  ranked-Allowed rank ranked (suc f) n lt = elim (Option-cases (get n ds)) [
    | inl e ↦ step_undefined f n e
    | inr (d, e) ↦ rw (step_defined f n d e) (
        definition_to_data_type-Allowed (identifier_to_data_type f ds) true false d refl (
          All-map (visits_definition d)
            (λ m (below : rank m < rank n). ranked-Allowed rank ranked f m (omega arith))
            (ranked n d e)))
  ]

  -- Without types that have no counterpart, and without undefined names, there is no error.
  convertible-Allowed :
      IsConvertible ds
      → (f : ℕ) (n : Text) (d : Definition) → get n ds ≡ some d
      → Allowed false true (identifier_to_data_type f ds n)
  convertible-Allowed ok_file zero n d e = unfold identifier_to_data_type in refl
  convertible-Allowed ok_file (suc f) n d e = rw (step_defined f n d e) (
      definition_to_data_type-Allowed (identifier_to_data_type f ds) false true d (ok_file n d e).0
        (All-map (visits_definition d)
          (λ m (known : (c : Definition) × (get m ds ≡ some c)).
            convertible-Allowed ok_file f m known.0 known.1)
          (ok_file n d e).1))

  not-All :
      (S : Text → Type 0) (P : Text → Type 0) (ns : List Text)
      → ((n : Text) → S n → P n → ⊥)
      → Any S ns
      → All P ns
      → ⊥
  not-All S P [] no_more h g = h
  not-All S P (n ∷ ns) no_more (inl s) g = no_more n s g.0
  not-All S P (n ∷ ns) no_more (inr h) g = not-All S P ns no_more h g.1

  cyclic-not-IsReturned :
      (S : Text → Type 0)
      → IsCyclic ds S
      → (f : ℕ) (n : Text) → S n
      → IsReturned (identifier_to_data_type f ds n)
      → ⊥
  cyclic-not-IsReturned S cyclic zero n s h = no_fuel n h
  cyclic-not-IsReturned S cyclic (suc f) n s h =
      let (d, e, some_visit) = cyclic n s in
      not-All S (λ m. IsReturned (identifier_to_data_type f ds m)) (visits_definition d)
        (λ m t made. cyclic-not-IsReturned S cyclic f m t made) some_visit
        (visits_definition-IsReturned (identifier_to_data_type f ds) d
          (subst IsReturned (step_defined f n d e) h))

  -- If no chain of references leads back to where it began (each definition refers only to names
  -- of a lower rank), the conversion of a name comes to an end, with a type or an error, on any fuel
  -- above the rank of the name.
  pub identifier_to_data_type-ranked :
      (rank : Text → ℕ)
      → IsRanked ds rank
      → (f : ℕ) (n : Text) → rank n < f
      → identifier_to_data_type f ds n ≢ unfinished
  identifier_to_data_type-ranked rank ranked f n lt e =
      ends (identifier_to_data_type f ds n) (ranked-Allowed rank ranked f n lt) e

  -- If no chain of references leads back to where it began (each definition refers only to names of a
  -- lower rank), every definition has a counterpart among the portable types and every reference a
  -- definition, then any defined name is converted to a type, on any fuel above the rank of the name.
  pub identifier_to_data_type-total :
      (rank : Text → ℕ)
      → IsRanked ds rank
      → IsConvertible ds
      → (f : ℕ) (n : Text) (d : Definition) → rank n < f
      → get n ds ≡ some d
      → (ty : DataType) × (identifier_to_data_type f ds n ≡ returned ty)
  identifier_to_data_type-total rank ranked ok_file f n d lt e =
      both (identifier_to_data_type f ds n) (ranked-Allowed rank ranked f n lt)
        (convertible-Allowed ok_file f n d e)

  -- A name from which references lead back, among names that are each defined in terms of another of
  -- them, is never converted, however deep the recursion goes; and if every definition of the file
  -- has a counterpart and every reference a definition, there is no error either: the recursion
  -- exceeds any bound.
  pub identifier_to_data_type-cyclic :
      (S : Text → Type 0)
      → IsCyclic ds S
      → (f : ℕ) (n : Text) → S n
      → ((ty : DataType) → identifier_to_data_type f ds n ≢ returned ty)
        × (IsConvertible ds → identifier_to_data_type f ds n ≡ unfinished)
  identifier_to_data_type-cyclic S cyclic f n s = (
    λ ty e. cyclic-not-IsReturned S cyclic f n s (subst IsReturned (sym e) tt),
    λ ok_file.
        neither (identifier_to_data_type f ds n) (cyclic-not-IsReturned S cyclic f n s)
          (convertible-Allowed ok_file f n (cyclic n s).0 (cyclic n s).1),
  )
