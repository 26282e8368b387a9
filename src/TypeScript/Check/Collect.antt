-- ===== src/TypeScript/Check/Collect.antt =====
-- dbcrossbarlib/src/drivers/dbcrossbar_ts/ast.rs: the table of definitions that a source file gets.
use dbcrossbar.Base.{Bool, true, false, not, ◌&&◌, ◌||◌, List, [], ◌∷◌, ◌++◌, map, none, some, Text}
use dbcrossbar.Base.{text_eq, all, ◌≡◌, refl, ap, ◌∙◌, Bool-cases, inl, inr, arith}
use dbcrossbar.Base.{ok, is_ok, append_assoc, append-nil}
use dbcrossbar.TypeScript.Ast.{Definition, Definitions}
use dbcrossbar.TypeScript.Ast.{name, insert, collect, continue_with}
use dbcrossbar.TypeScript.Check.Laws.{distinct, all-ext, all-and}

abbrev pub entries : List Definition → Definitions
entries [] = []
entries (d ∷ ds) = (name d, d) ∷ entries ds

has_key : Definitions → Text → Bool
has_key [] id = false
has_key ((k, e) ∷ ds) id = text_eq k id || has_key ds id

-- Each name is new to the map, and to those before it.
all_new : Definitions → List Definition → Bool
all_new seen [] = true
all_new seen (d ∷ ds) = not (has_key seen (name d)) && all_new (seen ++ ((name d, d) ∷ [])) ds

-- A name that is not a key is put at the end; one that is gives back a value.
insert_new :
    (id : Text) (d : Definition) (seen : Definitions)
    → has_key seen id ≡ false
    → insert id d seen ≡ (none, seen ++ ((id, d) ∷ []))
unfolding insert has_key
insert_new id d [] h = refl
insert_new id d ((k, e) ∷ seen) h = ground (arith, insert_new id d seen)

insert_again :
    (id : Text) (d : Definition) (seen : Definitions)
    → has_key seen id ≡ true
    → (e : Definition) × (rest : Definitions) × (insert id d seen ≡ (some e, rest))
unfolding insert has_key
insert_again id d [] h = absurd (cc)
insert_again id d ((k, e) ∷ seen) h = elim (Bool-cases (text_eq k id)) [
  | inl same ↦ (e, (k, d) ∷ seen, rw same)
  | inr other ↦
      let (old, rest, made) = insert_again id d seen (ground arith) in
      (old, (k, e) ∷ rest, rw (other, made))
]

is_ok-collect :
    (seen : Definitions) (ds : List Definition) → is_ok (collect seen ds) ≡ all_new seen ds
unfolding collect all_new
is_ok-collect seen [] = refl
is_ok-collect seen (d ∷ ds) = elim (Bool-cases (has_key seen (name d))) [
  | inl again ↦
      let (old, rest, made) = insert_again (name d) d seen again in
      rw again (ap (λ r. is_ok (continue_with (name d) r (λ m. collect m ds))) made)
  | inr new ↦ rw new (
      ap (λ r. is_ok (continue_with (name d) r (λ m. collect m ds)))
        (insert_new (name d) d seen new)
      ∙ is_ok-collect (seen ++ ((name d, d) ∷ [])) ds)
]

collect-entries :
    (seen : Definitions) (ds : List Definition)
    → all_new seen ds ≡ true
    → collect seen ds ≡ ok (seen ++ entries ds)
unfolding collect all_new
collect-entries seen [] h = rw append-nil
collect-entries seen (d ∷ ds) h =
    let new : has_key seen (name d) ≡ false = ground arith in
    ap (λ r. continue_with (name d) r (λ m. collect m ds)) (insert_new (name d) d seen new)
    ∙ collect-entries (seen ++ ((name d, d) ∷ [])) ds (ground arith)
    ∙ ap ok (append_assoc seen ((name d, d) ∷ []) (entries ds))

text_eq_comm : (s t : Text) → text_eq s t ≡ text_eq t s
unfolding text_eq
text_eq_comm [] [] = refl
text_eq_comm [] (_ ∷ _) = refl
text_eq_comm (_ ∷ _) [] = refl
text_eq_comm (a ∷ s) (b ∷ t) = ground (arith, text_eq_comm s t)

has_key-append :
    (seen : Definitions) (n m : Text) (d : Definition)
    → not (has_key (seen ++ ((n, d) ∷ [])) m) ≡ (not (text_eq m n) && not (has_key seen m))
unfolding has_key
has_key-append [] n m d = ground (arith, text_eq_comm n m)
has_key-append ((k, e) ∷ seen) n m d = ground (arith, has_key-append seen n m d)

names : List Definition → List Text
names ds = map name ds

new_names : Definitions → List Text → Bool
new_names seen ns = all (λ m. not (has_key seen m)) ns

regroup : (a b c d : Bool) → (a && ((b && c) && d)) ≡ ((a && c) && (b && d))
regroup a b c d = ground arith

all_new-distinct :
    (seen : Definitions) (ds : List Definition)
    → all_new seen ds ≡ (new_names seen (names ds) && distinct (names ds))
unfolding all_new new_names names
all_new-distinct seen [] = refl
all_new-distinct seen (d ∷ ds) =
    ap (λ b. not (has_key seen (name d)) && b)
      (all_new-distinct (seen ++ ((name d, d) ∷ [])) ds
        ∙ ap (λ b. b && distinct (names ds))
            (all-ext (λ m. not (has_key (seen ++ ((name d, d) ∷ [])) m))
                (λ m. not (text_eq m (name d)) && not (has_key seen m)) (names ds)
                (λ m. has_key-append seen (name d) m d)
              ∙ all-and (λ m. not (text_eq m (name d))) (λ m. not (has_key seen m)) (names ds)))
    ∙ regroup (not (has_key seen (name d))) (all (λ m. not (text_eq m (name d))) (names ds))
        (new_names seen (names ds)) (distinct (names ds))

no_keys : (ns : List Text) → new_names [] ns ≡ true
unfolding new_names has_key
no_keys [] = refl
no_keys (n ∷ ns) = no_keys ns

-- The map of definitions is built exactly when the definitions have different names, and then it
-- holds each definition under its name, in the order of the file.
pub collect_lem :
    (ds : List Definition)
    → (is_ok (collect [] ds) ≡ distinct (map name ds))
      × (distinct (map name ds) ≡ true → collect [] ds ≡ ok (entries ds))
unfolding names
collect_lem ds =
    let same = all_new-distinct [] ds ∙ ap (λ b. b && distinct (names ds)) (no_keys (names ds)) in
    (is_ok-collect [] ds ∙ same, λ h. collect-entries [] ds (same ∙ h))
