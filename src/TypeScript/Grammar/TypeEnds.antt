-- ===== src/TypeScript/Grammar/TypeEnds.antt =====
-- dbcrossbarlib/src/drivers/dbcrossbar_ts/ast.rs: the rules of types come to an end.
use dbcrossbar.TypeScript.Grammar.Blanks.{ws_opt-le}
use dbcrossbar.Base.{
  ℕ, zero, suc, ◌+◌, ◌≤◌, ◌<◌, ◌≡◌, refl, List, [], ◌∷◌, Text, codes, length, arith, inl, inr,
  Bool-cases, All,
}
use dbcrossbar.Peg.{Peg, failed, bind, orelse, literal}
use dbcrossbar.Peg.Leaves.{
  Leaves, left, refused, Leaves-orelse, Leaves-bind, Leaves-le, span-le, literal-Leaves,
}
use dbcrossbar.BigQuery.Grammar.{is_name_start, is_name_part}
use dbcrossbar.TypeScript.Ast.{Ty}
use dbcrossbar.TypeScript.Grammar.{
  ws_opt, identifier, keywords, keyword, atom, array_suffix, union_suffix, ty_at, operators, ty,
}

pub identifier-Leaves : (n : ℕ) (ts : Text) → length ts ≤ suc n → Leaves n (identifier ts)
unfolding identifier
identifier-Leaves n [] h = refused
identifier-Leaves n (c ∷ ts) h =
    let le = span-le is_name_part ts in
    elim (Bool-cases (is_name_start c)) [
      | inl start ↦ rw start (left _ _ (omega arith))
      | inr other ↦ rw other refused
    ]

keyword-Leaves :
    (ks : List (Text × Ty)) (n : ℕ) (ts : Text)
    → All (λ (k, t). 1 ≤ length k) ks
    → length ts ≤ suc n
    → Leaves n (keyword ks ts)
unfolding keyword
keyword-Leaves [] n ts solid h = refused
keyword-Leaves ((k, t) ∷ ks) n ts (long, solid) h =
    Leaves-orelse (literal-Leaves _ k ts λ r le. left t r (omega arith))
      (keyword-Leaves ks n ts solid h)

atom-Leaves : (n : ℕ) (ts : Text) → length ts ≤ suc n → Leaves n (atom ts)
unfolding atom
atom-Leaves n ts h =
    Leaves-orelse (keyword-Leaves keywords n ts (omega arith) h)
      (Leaves-bind (identifier-Leaves n ts h) λ id r le. left _ r le)

-- A literal of one character behind blanks.
pub sign-Leaves :
    {B : Type 0} {m : ℕ} (k : Unit {0} → Text → Peg B) (p ts : Text)
    → ((r : Text) → length r + length p ≤ length ts → Leaves m (k tt r))
    → Leaves m (bind (literal p (ws_opt ts)) k)
sign-Leaves k p ts next =
    let shorter = ws_opt-le ts in literal-Leaves k p (ws_opt ts) λ r le. next r (omega arith)

array_suffix-Leaves :
    (t : Ty) (n : ℕ) (ts : Text) → length ts ≤ suc n → Leaves n (array_suffix t ts)
unfolding array_suffix
array_suffix-Leaves t n ts h =
    sign-Leaves _ (codes "[") ts
      λ r le. sign-Leaves _ (codes "]") r λ r' le'. left _ r' (omega arith)

union_suffix-Leaves :
    (right_rule : Text → Peg Ty) (level : ℕ) (t : Ty) (n : ℕ) (ts : Text)
    → length ts ≤ suc n
    → ((r : Text) → length r ≤ n → Leaves n (right_rule r))
    → Leaves n (union_suffix right_rule level t ts)
unfolding union_suffix
union_suffix-Leaves right_rule zero t n ts h rule = sign-Leaves _ (codes "|") ts λ r le.
    let shorter = ws_opt-le r in
    Leaves-bind (rule (ws_opt r) (omega arith)) λ t' r' le'. left _ r' le'
union_suffix-Leaves right_rule (suc level) t n ts h rule = refused

atom_empty : atom [] ≡ failed
unfolding atom keyword literal identifier
atom_empty = refl

no_suffix :
    (right_rule : Text → Peg Ty) (level : ℕ) (t : Ty)
    → orelse (union_suffix right_rule level t []) (array_suffix t []) ≡ failed
unfolding union_suffix array_suffix
no_suffix right_rule zero t = refl
no_suffix right_rule (suc level) t = refl

mutual
  unfolding ty_at

  ty_at-Leaves : (f level : ℕ) (ts : Text) → length ts < f → Leaves (length ts) (ty_at f level ts)
  ty_at-Leaves zero level ts h = absurd (omega arith)
  ty_at-Leaves (suc f) level [] h = rw atom_empty refused
  ty_at-Leaves (suc f) level (c ∷ ts) h =
      Leaves-bind (atom-Leaves (length ts) (c ∷ ts) (omega arith))
        λ t r le. Leaves-le (omega arith) (operators-Leaves f level t r (omega arith))

  operators-Leaves :
      (f level : ℕ) (t : Ty) (ts : Text)
      → length ts < f
      → Leaves (length ts) (operators f level t ts)
  operators-Leaves zero level t ts h = absurd (omega arith)
  operators-Leaves (suc f) level t [] h =
      rw (no_suffix (ty_at f 1) level t) (left t [] (omega arith))
  operators-Leaves (suc f) level t (c ∷ ts) h =
      Leaves-orelse
        (Leaves-bind
          (Leaves-orelse
            (union_suffix-Leaves (ty_at f 1) level t (length ts) (c ∷ ts) (omega arith)
              λ r le. Leaves-le le (ty_at-Leaves f 1 r (omega arith)))
            (array_suffix-Leaves t (length ts) (c ∷ ts) (omega arith)))
          λ larger r le. Leaves-le (omega arith) (operators-Leaves f level larger r (omega arith)))
        (left t (c ∷ ts) (omega arith))

pub ty-Leaves : (ts : Text) → Leaves (length ts) (ty ts)
unfolding ty
ty-Leaves ts = ty_at-Leaves (suc (length ts)) 0 ts (omega arith)
