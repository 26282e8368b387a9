-- ===== src/TypeScript/Grammar/KeywordNames.antt =====
-- Names of types that begin with a keyword of the grammar.
use dbcrossbar.Base.{ℕ, true, [], ◌∷◌, ◌++◌, Text, codes, ◌≡◌, refl, suc, length, arith}
use dbcrossbar.BigQuery.Grammar.{is_name_part}
use dbcrossbar.Peg.{matched, failed}
use dbcrossbar.TypeScript.Ast.{Ty}
use dbcrossbar.TypeScript.Grammar.{keywords, ty, ty_at, operators, type_alias}
use dbcrossbar.TypeScript.Grammar.Gaps.{no_gap, ws_opt-Gap, Gap-StopsAt}
use dbcrossbar.TypeScript.Grammar.Spelling.{Gap, nothing, IsSome, IsIdentifier, Listed}
use dbcrossbar.TypeScript.Grammar.Types.{
  keyword-Listed, sign, other_sign, identifier-append, ident-no_gap, keyword-no_gap,
}
use dbcrossbar.TypeScript.Grammar.Operators.{array_suffix-other, union_suffix-other}
use dbcrossbar.TypeScript.Grammar.Statements.{ws-append}

operators_stop :
    (f level : ℕ) (t : Ty) (c : ℕ) (r : Text)
    → is_name_part c ≡ true
    → operators (suc f) level t (c ∷ r) ≡ matched t (c ∷ r)
unfolding operators
operators_stop f level t c r part =
    let solid = no_gap c r (ground arith) (ground arith) in
    rw (union_suffix-other nothing (ty_at f 1) level t c r solid (ground arith))
      (rw (array_suffix-other nothing t c r solid (ground arith)))

long_enough : (k : Text) (c : ℕ) (r : Text) → (n : ℕ) × (length (k ++ (c ∷ r)) ≡ suc n)
long_enough [] c r = (length r, refl)
long_enough (d ∷ k) c r = (length (k ++ (c ∷ r)), refl)

-- The keyword is taken for the whole type.
ty-keyword :
    {k : Text} {t : Ty} (c : ℕ) (r : Text)
    → Listed (k, t) keywords
    → is_name_part c ≡ true
    → ty (k ++ (c ∷ r)) ≡ matched t (c ∷ r)
unfolding ty ty_at
ty-keyword {k} {t} c r m part =
    let (n, long) = long_enough k c r in
    rw (keyword-Listed (c ∷ r) m) (rw long (operators_stop n 0 t c r part))

-- No alias goes to a type whose name goes on behind a keyword, like `stringy` or `anything`: with
-- whatever gaps and name, the rule for aliases fails.
pub type_alias-keyword :
    {k : Text} {t : Ty} {g v w : Text} (id r : Text) (c : ℕ)
    → IsSome g
    → IsIdentifier id
    → Gap v
    → Gap w
    → Listed (k, t) keywords
    → is_name_part c ≡ true
    → type_alias (codes "type" ++ (g ++ (id ++ (v ++ (b'=' ∷ (w ++ (k ++ (c ∷ r)))))))) ≡ failed
unfolding type_alias
type_alias-keyword {k} {v = v} {w} id r c g ident gv gw m part =
    let tail : Text = w ++ (k ++ (c ∷ r)) in
    rw (ws-append g (id ++ (v ++ (b'=' ∷ tail))) (ident-no_gap id (v ++ (b'=' ∷ tail)) ident)) (
      rw (identifier-append id (v ++ (b'=' ∷ tail)) ident (Gap-StopsAt b'=' tail gv refl)) (
        rw (sign gv b'=' tail (no_gap b'=' tail refl refl)) (
          rw (ws_opt-Gap (k ++ (c ∷ r)) gw (keyword-no_gap (c ∷ r) m)) (
            rw (ty-keyword c r m part) (
              rw (
                other_sign nothing c r (no_gap c r (ground arith) (ground arith)) b';'
                  (ground arith)))))))
