-- ===== src/TypeScript/Parse.antt =====
-- dbcrossbarlib/src/drivers/dbcrossbar_ts/ast.rs: `SourceFile::parse`, from the text to the checked
-- definitions.
use dbcrossbar.Base.{
  true, false, ◌&&◌, List, [], ◌∷◌, Text, all, map, ◌≡◌, refl, ap, ◌∙◌, sym, Result, ok, err, ◌>>=◌,
  is_ok, Bool-cases, inl, inr, and_both,
}
use dbcrossbar.TypeScript.Ast.{
  Definition, Definitions, Statement, ParseError, name, definitions, collect,
}
use dbcrossbar.TypeScript.Check.{check_all}
use dbcrossbar.TypeScript.Check.Laws.{distinct, is_sound, is_ok-check_all}
use dbcrossbar.TypeScript.Check.Collect.{entries, collect_lem}
use dbcrossbar.TypeScript.Grammar.{checked, parse}
use dbcrossbar.TypeScript.Grammar.Spelling.{SpellsFile}
use dbcrossbar.TypeScript.Grammar.Statements.{statements-SpellsFile}

values : (ds : List Definition) → map (λ (e : Text × Definition). e.1) (entries ds) ≡ ds
values [] = refl
values (d ∷ ds) = ap (λ r. d ∷ r) (values ds)

is_ok-then_keep :
    {A : Type 0} (m : Result ParseError (Unit {0})) (a : A) → is_ok (m >>= λ _. ok a) ≡ is_ok m
is_ok-then_keep (ok tt) a = refl
is_ok-then_keep (err e) a = refl

ok-then_keep :
    {A : Type 0} (m : Result ParseError (Unit {0})) (a : A)
    → is_ok m ≡ true
    → (m >>= λ _. ok a) ≡ ok a
ok-then_keep (ok tt) a h = refl
ok-then_keep (err e) a h = absurd (cc)

module _ (ds : List Definition) where
  is_ok-checked : is_ok (checked (entries ds)) ≡ all (is_sound (entries ds)) ds
  unfolding checked
  is_ok-checked =
      rw (values ds)
        (is_ok-then_keep (check_all (entries ds) ds) (entries ds) ∙ is_ok-check_all (entries ds) ds)

  checked_sound : all (is_sound (entries ds)) ds ≡ true → checked (entries ds) ≡ ok (entries ds)
  unfolding checked
  checked_sound h =
      rw (values ds) (
        ok-then_keep (check_all (entries ds) ds) (entries ds) (is_ok-check_all (entries ds) ds ∙ h))

  is_ok-collect_and_check :
      is_ok (collect [] ds >>= λ m. checked m)
      ≡ (distinct (map name ds) && all (is_sound (entries ds)) ds)
  is_ok-collect_and_check = elim (Bool-cases (distinct (map name ds))) [
    | inl d ↦ rw ((collect_lem ds).1 d, d) is_ok-checked
    | inr d ↦ rw d (not_collected (collect [] ds) ((collect_lem ds).0 ∙ d))
  ]
    where
      not_collected :
          (m : Result ParseError Definitions)
          → is_ok m ≡ false
          → is_ok (m >>= λ x. checked x) ≡ false
      not_collected (ok x) h = absurd (cc)
      not_collected (err e) h = refl

-- A file that spells the given statements is accepted exactly when its definitions have different
-- names and each of them is sound: the fields of an interface have different names, and every name
-- that a type refers to is defined. What is read then are its definitions, each under its name, in
-- the order of the file.
pub parse-SpellsFile :
    (ss : List Statement) (text : Text)
    → SpellsFile ss text
    → (is_ok (parse text) ≡ (
        distinct (map name (definitions ss))
        && all (is_sound (entries (definitions ss))) (definitions ss)))
      × (is_ok (parse text) ≡ true → parse text ≡ ok (entries (definitions ss)))
unfolding parse
parse-SpellsFile ss text sp =
    let ds = definitions ss in
    let read = statements-SpellsFile ss text sp in
    rw read (
      is_ok-collect_and_check ds,
      λ h.
          let (d, s) =
            and_both (distinct (map name ds)) (all (is_sound (entries ds)) ds)
              (sym (is_ok-collect_and_check ds) ∙ h) in
          rw ((collect_lem ds).1 d) (checked_sound ds s),
    )
