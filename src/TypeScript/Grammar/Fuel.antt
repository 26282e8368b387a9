-- ===== src/TypeScript/Grammar/Fuel.antt =====
-- dbcrossbarlib/src/drivers/dbcrossbar_ts/ast.rs: the rules of the grammar come to an end.
use dbcrossbar.TypeScript.Grammar.Blanks.{ws_opt-le, ws_opt-stops, ws-Leaves}
use dbcrossbar.TypeScript.Grammar.TypeEnds.{identifier-Leaves, sign-Leaves, ty-Leaves}
use dbcrossbar.Base.{
  ℕ, zero, suc, ◌≤◌, ◌<◌, ◌≡◌, [], ◌∷◌, none, Text, codes, length, arith, inl, inr, Bool-cases,
  strip_prefix, ◌==◌, true, false,
}
use dbcrossbar.Peg.{Peg, matched, failed, panicked, out_of_fuel, literal, finish}
use dbcrossbar.Peg.Leaves.{
  Leaves, left, refused, Leaves-orelse, Leaves-bind, Leaves-Answers, Answers, literal-Leaves,
}
use dbcrossbar.TypeScript.Grammar.{
  ws_item, ws_opt, optional_mark, field, more_fields, after_match, trailing_comma, fields,
  interface, type_alias, definition, statement, more_statements, statements,
}

optional_mark-Leaves : (ts : Text) → Leaves (length ts) (optional_mark ts)
unfolding optional_mark
optional_mark-Leaves ts =
    Leaves-orelse (sign-Leaves _ (codes "?") ts λ r le. left true r (omega arith))
      (left false ts (omega arith))

field-Leaves : (n : ℕ) (ts : Text) → length ts ≤ suc n → Leaves n (field ts)
unfolding field
field-Leaves n ts h = Leaves-bind (identifier-Leaves n ts h) λ name r₁ le₁.
    Leaves-bind (optional_mark-Leaves r₁) λ optional r₂ le₂.
      literal-Leaves _ (codes ":") r₂ λ r₃ le₃.
        let shorter = ws_opt-le r₃ in
        Leaves-bind (ty-Leaves (ws_opt r₃)) λ t r₄ le₄. left _ r₄ (omega arith)

pub more_fields-Leaves : (f : ℕ) (ts : Text) → length ts < f → Leaves (length ts) (more_fields f ts)
unfolding more_fields
more_fields-Leaves zero ts h = absurd (omega arith)
more_fields-Leaves (suc f) ts h =
    Leaves-orelse
      (sign-Leaves _ (codes ",") ts λ r₁ le₁.
        let shorter = ws_opt-le r₁ in
        Leaves-bind (field-Leaves (length r₁) (ws_opt r₁) (omega arith)) λ x r₂ le₂.
          Leaves-bind (more_fields-Leaves f r₂ (omega arith)) λ xs r₃ le₃. left _ r₃ (omega arith))
      (left [] ts (omega arith))

after_match-le :
    (n : ℕ) (p : Peg (Unit {0})) (ts : Text)
    → Leaves n p
    → length ts ≤ n
    → length (after_match p ts) ≤ n
after_match-le n (matched tt r) ts (left _ _ le) h = le
after_match-le n failed ts l h = h
after_match-le n panicked ts l h = h
after_match-le n out_of_fuel ts l h = h

comma-Leaves : (n : ℕ) (ts : Text) → length ts ≤ n → Leaves n (literal (codes ",") ts)
unfolding literal strip_prefix
comma-Leaves n [] h = refused
comma-Leaves n (c ∷ ts) h = elim (Bool-cases (b',' == c)) [
  | inl same ↦ rw same (left tt ts (omega arith))
  | inr other ↦ rw other refused
]

trailing_comma-le : (ts : Text) → length (trailing_comma ts) ≤ length ts
unfolding trailing_comma
trailing_comma-le ts =
    after_match-le (length ts) (literal (codes ",") (ws_opt ts)) ts
      (let shorter = ws_opt-le ts in comma-Leaves (length ts) (ws_opt ts) shorter) (omega arith)

fields-Leaves : (ts : Text) → Leaves (length ts) (fields ts)
unfolding fields
fields-Leaves ts =
    Leaves-bind {n = length ts}
      (Leaves-orelse
        (Leaves-bind (field-Leaves (length ts) ts (omega arith)) λ x r₁ le₁.
          Leaves-bind (more_fields-Leaves (suc (length r₁)) r₁ (omega arith))
            λ xs r₂ le₂. left _ r₂ (omega arith))
        (left [] ts (omega arith)))
      λ fs r le. let shorter = trailing_comma-le r in left _ _ (omega arith)

interface-Leaves : (n : ℕ) (ts : Text) → length ts ≤ suc n → Leaves n (interface ts)
unfolding interface
interface-Leaves n ts h = literal-Leaves _ (codes "interface") ts λ r₁ le₁.
    Leaves-bind (ws-Leaves r₁) λ _ r₂ le₂.
      Leaves-bind (identifier-Leaves (length r₂) r₂ (omega arith)) λ name r₃ le₃.
        sign-Leaves _ (codes "{") r₃ λ r₄ le₄.
          let shorter = ws_opt-le r₄ in
          Leaves-bind (fields-Leaves (ws_opt r₄))
            λ fs r₅ le₅. sign-Leaves _ (codes "}") r₅ λ r₆ le₆. left _ r₆ (omega arith)

type_alias-Leaves : (n : ℕ) (ts : Text) → length ts ≤ suc n → Leaves n (type_alias ts)
unfolding type_alias
type_alias-Leaves n ts h = literal-Leaves _ (codes "type") ts λ r₁ le₁.
    Leaves-bind (ws-Leaves r₁) λ _ r₂ le₂.
      Leaves-bind (identifier-Leaves (length r₂) r₂ (omega arith)) λ name r₃ le₃.
        sign-Leaves _ (codes "=") r₃ λ r₄ le₄.
          let shorter = ws_opt-le r₄ in
          Leaves-bind (ty-Leaves (ws_opt r₄))
            λ t r₅ le₅. sign-Leaves _ (codes ";") r₅ λ r₆ le₆. left _ r₆ (omega arith)

statement-Leaves : (n : ℕ) (ts : Text) → length ts ≤ suc n → Leaves n (statement ts)
unfolding statement definition
statement-Leaves n ts h =
    Leaves-orelse
      (Leaves-bind
        (Leaves-orelse (Leaves-bind (interface-Leaves n ts h) λ i r le. left _ r le)
          (type_alias-Leaves n ts h))
        λ d r le. left _ r le)
      (literal-Leaves _ (codes ";") ts λ r le. left _ r (omega arith))

pub more_statements-Leaves :
    (f : ℕ) (ts : Text) → length ts < f → Leaves (length ts) (more_statements f ts)
unfolding more_statements
more_statements-Leaves zero ts h = absurd (omega arith)
more_statements-Leaves (suc f) [] h = left [] [] (omega arith)
more_statements-Leaves (suc f) (c ∷ ts) h =
    let shorter = ws_opt-le (c ∷ ts) in
    Leaves-orelse
      (Leaves-bind (statement-Leaves (length ts) (ws_opt (c ∷ ts)) (omega arith)) λ s r₁ le₁.
        Leaves-bind (more_statements-Leaves f r₁ (omega arith))
          λ ss r₂ le₂. left _ r₂ (omega arith))
      (left [] (c ∷ ts) (omega arith))

finish-Leaves : {A : Type 0} (a : A) (r : Text) → Leaves 0 (finish (matched a r))
finish-Leaves a [] = left a [] (omega arith)
finish-Leaves a (c ∷ r) = refused

-- Whatever the text, the grammar comes to the statements of a file or to a failure, and no rule runs
-- forever. The fuel of the model is never the reason: no rule reports that it has run out, and the
-- blanks and comments, which would stop without a word, go on until neither stands next.
pub statements_end :
    (ts : Text) → Answers (statements ts) × ((gap : Text) → ws_item (ws_opt gap) ≡ none)
unfolding statements
statements_end ts =
    let n = length (ws_opt ts) in
    let answers = Leaves-Answers (
      Leaves-bind {n = n}
        (Leaves-orelse
          (Leaves-bind (statement-Leaves n (ws_opt ts) (omega arith)) λ s r₁ le₁.
            Leaves-bind (more_statements-Leaves (suc (length r₁)) r₁ (omega arith))
              λ ss r₂ le₂. left _ r₂ (omega arith))
          (left [] (ws_opt ts) (omega arith)))
        λ ss r le. finish-Leaves ss (ws_opt r)) in
    (answers, ws_opt-stops)
