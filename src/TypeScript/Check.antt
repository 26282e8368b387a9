-- ===== src/TypeScript/Check.antt =====
-- dbcrossbarlib/src/drivers/dbcrossbar_ts/ast.rs: `Node::check`.
pub mod Laws
pub mod Collect
use dbcrossbar.Base.{List, [], ◌∷◌, Text, text_eq, any}
use dbcrossbar.Base.{Result, ok, err, ◌>>=◌, if◌then◌else◌}
use dbcrossbar.TypeScript.Ast.{
  Ty, Field, Definition, Definitions, ParseError, definition_for_identifier,
}

unfoldable pub check_ty : Definitions → Ty → Result ParseError (Unit {0})
check_ty ds (Ty.array t) = check_ty ds t
check_ty ds (Ty.ref id) = definition_for_identifier ds id >>= λ _. ok tt
check_ty ds (Ty.union t u) = check_ty ds t >>= λ _. check_ty ds u
check_ty ds _ = ok tt

-- The fields, after those with the names in `seen`.
unfoldable pub check_fields : Definitions → List Text → List Field → Result ParseError (Unit {0})
unfolding check_ty
check_fields ds seen [] = ok tt
check_fields ds seen (f ∷ fs) =
    let rest = check_fields ds (f.name ∷ seen) fs in
    if any (text_eq f.name) seen
    then err (ParseError.duplicate_field f.name)
    else (check_ty ds f.ty >>= λ _. rest)

unfoldable pub check : Definitions → Definition → Result ParseError (Unit {0})
unfolding check_fields
check ds (Definition.interface i) = check_fields ds [] i.fields
check ds (Definition.type_alias _ ty) = check_ty ds ty

-- The loop over `definitions.values()`.
unfoldable pub check_all : Definitions → List Definition → Result ParseError (Unit {0})
unfolding check
check_all ds [] = ok tt
check_all ds (d ∷ rest) = check ds d >>= λ _. check_all ds rest
