-- ===== src/TypeScript/Grammar/Operators.antt =====
-- The operators of types: arrays bind tighter than unions, and unions associate to the left.
use dbcrossbar.Base.{
  ℕ, zero, suc, false, ◌∷◌, ◌++◌, none, Text, codes, ◌≡◌, refl, append_assoc, length, ◌==◌,
}
use dbcrossbar.BigQuery.Grammar.{is_name_part}
use dbcrossbar.Peg.{Peg, matched, failed, bind, orelse}
use dbcrossbar.Peg.Spans.{StopsAt}
use dbcrossbar.Peg.Outcome.{Yields, done, gave_up, Yields-bind, Yields-orelse_left, Yields-matched}
use dbcrossbar.Peg.Leaves.{Leaves-out_of_fuel}
use dbcrossbar.TypeScript.Ast.{Ty}
use dbcrossbar.TypeScript.Grammar.{array_suffix, union_suffix, ty_at, operators, ty, ws_item}
use dbcrossbar.TypeScript.Grammar.TypeEnds.{ty-Leaves}
use dbcrossbar.TypeScript.Grammar.Gaps.{ws_opt-Gap, no_gap, Gap-StopsAt}
use dbcrossbar.TypeScript.Grammar.Types.{
  sign, other_sign, keyword-Listed, name_text, operand-no_gap,
}
use dbcrossbar.TypeScript.Grammar.Spelling.{
  Gap, SpellsOperand, word, a_ref, an_array, SpellsTy, operand, a_union,
}

module _ {v : Text} (g : Gap v) where
  array_suffix-bracket :
      {w : Text} (t : Ty) (r : Text)
      → Gap w
      → array_suffix t (v ++ (b'[' ∷ (w ++ (b']' ∷ r)))) ≡ matched (Ty.array t) r
  unfolding array_suffix
  array_suffix-bracket {w} t r h =
      rw (sign g b'[' (w ++ (b']' ∷ r)) (no_gap b'[' (w ++ (b']' ∷ r)) refl refl))
        (rw (sign h b']' r (no_gap b']' r refl refl)))

  -- No bracket stands behind the gap, and no bar.
  pub array_suffix-other :
      (t : Ty) (c : ℕ) (r : Text)
      → ws_item (c ∷ r) ≡ none
      → (b'[' == c) ≡ false
      → array_suffix t (v ++ (c ∷ r)) ≡ failed
  unfolding array_suffix
  array_suffix-other t c r solid differ = rw (other_sign g c r solid b'[' differ)

  pub union_suffix-other :
      (right_rule : Text → Peg Ty) (level : ℕ) (t : Ty) (c : ℕ) (r : Text)
      → ws_item (c ∷ r) ≡ none
      → (b'|' == c) ≡ false
      → union_suffix right_rule level t (v ++ (c ∷ r)) ≡ failed
  unfolding union_suffix
  union_suffix-other right_rule zero t c r solid differ = rw (other_sign g c r solid b'|' differ)
  union_suffix-other right_rule (suc level) t c r solid differ = refl

  union_suffix-bar :
      {w : Text} (right_rule : Text → Peg Ty) (t : Ty) (q : Text)
      → Gap w
      → ws_item q ≡ none
      → union_suffix right_rule 0 t (v ++ (b'|' ∷ (w ++ q)))
        ≡ bind (right_rule q) λ right r. matched (Ty.union t right) r
  unfolding union_suffix
  union_suffix-bar {w} right_rule t q h solid =
      rw (sign g b'|' (w ++ q) (no_gap b'|' (w ++ q) refl refl)) (rw (ws_opt-Gap q h solid))

  operators-bracket :
      {w : Text} (f level : ℕ) (t : Ty) (r : Text)
      → Gap w
      → operators (suc f) level t (v ++ (b'[' ∷ (w ++ (b']' ∷ r))))
        ≡ orelse (operators f level (Ty.array t) r) (matched t (v ++ (b'[' ∷ (w ++ (b']' ∷ r)))))
  unfolding operators
  operators-bracket {w} f level t r h =
      rw
        (union_suffix-other (ty_at f 1) level t b'[' (w ++ (b']' ∷ r))
          (no_gap b'[' (w ++ (b']' ∷ r)) refl refl) refl)
        (rw (array_suffix-bracket t r h))

-- Neither a bar nor a bracket follows: what is there is the whole type.
data Closed : ℕ → Text → Type 0 where
  closed :
      {v : Text} {level : ℕ} (c : ℕ) (r : Text)
      → Gap v
      → ws_item (c ∷ r) ≡ none
      → (b'[' == c) ≡ false
      → (b'|' == c) ≡ false
      → Closed level (v ++ (c ∷ r))
  -- The right side of a union ends at a bar.
  at_bar : {v : Text} (r : Text) → Gap v → Closed 1 (v ++ (b'|' ∷ r))

operators-Closed :
    {level : ℕ} {r : Text} → Closed level r → (t : Ty) (f : ℕ) → Yields t r (operators f level t r)
unfolding operators
operators-Closed c t zero = gave_up
operators-Closed {level} (closed c r g solid bracket bar) t (suc f) =
    rw (union_suffix-other g (ty_at f 1) level t c r solid bar)
      (rw (array_suffix-other g t c r solid bracket) done)
operators-Closed (at_bar r g) t (suc f) =
    rw (array_suffix-other g t b'|' r (no_gap b'|' r refl refl) refl) done

bracket_next :
    {v w : Text} (g : Gap v) (h : Gap w) (level : ℕ) (t : Ty) (r : Text) {u : Ty} {q : Text}
    → ((f : ℕ) → Yields u q (operators f level (Ty.array t) r))
    → (f : ℕ) → Yields u q (operators f level t (v ++ (b'[' ∷ (w ++ (b']' ∷ r)))))
bracket_next g h level t r next zero = unfold operators in gave_up
bracket_next g h level t r next (suc f) =
    rw (operators-bracket g f level t r h) (Yields-orelse_left _ (next f))

bracketed :
    (s v w r : Text)
    → (s ++ (v ++ (codes "[" ++ (w ++ codes "]")))) ++ r ≡ s ++ (v ++ (b'[' ∷ (w ++ (b']' ∷ r))))
bracketed s v w r = simp append_assoc

-- What the operators make of an operand, the rule for types makes of its text.
operand_complete :
    {t : Ty} {s : Text}
    → SpellsOperand t s
    → (level : ℕ) (r : Text) → StopsAt is_name_part r
    → {u : Ty} {q : Text} → ((f : ℕ) → Yields u q (operators f level t r))
    → (f : ℕ) → Yields u q (ty_at f level (s ++ r))
unfolding ty_at
operand_complete sp level r stop next zero = gave_up
operand_complete (word m) level r stop next (suc f) = rw (keyword-Listed r m) (next f)
operand_complete (a_ref id ident free) level r stop next (suc f) =
    rw (name_text id free ident r stop) (next f)
operand_complete (an_array {t} {s} {v} {w} sp g h) level r stop next (suc f) =
    rw (bracketed s v w r) (
      operand_complete sp level (v ++ (b'[' ∷ (w ++ (b']' ∷ r))))
        (Gap-StopsAt b'[' (w ++ (b']' ∷ r)) g refl) (bracket_next g h level t r next) (suc f))

barred :
    (s v w s' r : Text)
    → (s ++ (v ++ (codes "|" ++ (w ++ s')))) ++ r ≡ s ++ (v ++ (b'|' ∷ (w ++ (s' ++ r))))
barred s v w s' r = simp append_assoc

-- The right side of a union, which ends where no bracket follows.
bar_next :
    {v w s' : Text} {right : Ty} (g : Gap v) (h : Gap w) (sq : SpellsOperand right s') (t : Ty)
    (r : Text)
    → StopsAt is_name_part r
    → Closed 1 r
    → {u : Ty} {q : Text} → ((f : ℕ) → Yields u q (operators f 0 (Ty.union t right) r))
    → (f : ℕ) → Yields u q (operators f 0 t (v ++ (b'|' ∷ (w ++ (s' ++ r)))))
unfolding operators
bar_next g h sq t r stop end next zero = gave_up
bar_next {s'} {right} g h sq t r stop end next (suc f) =
    rw (union_suffix-bar g (ty_at f 1) t (s' ++ r) h (operand-no_gap sq r)) (
      Yields-orelse_left _ (
        Yields-bind _
          (Yields-orelse_left _ (
            Yields-bind _ (operand_complete sq 1 r stop (λ k. operators-Closed end right k) f)
              done))
          (next f)))

-- What follows a whole type.
Closed-lower : {r : Text} → Closed 0 r → Closed 1 r
Closed-lower (closed c r g solid bracket bar) = closed c r g solid bracket bar

ty_complete :
    {t : Ty} {s : Text}
    → SpellsTy t s
    → (r : Text) → StopsAt is_name_part r
    → Closed 1 r
    → {u : Ty} {q : Text} → ((f : ℕ) → Yields u q (operators f 0 t r))
    → (f : ℕ) → Yields u q (ty_at f 0 (s ++ r))
ty_complete (operand sp) r stop end next f = operand_complete sp 0 r stop next f
ty_complete (a_union {t} {u} {s} {s'} {v} {w} sp g h sq) r stop end next f =
    rw (barred s v w s' r) (
      ty_complete sp (v ++ (b'|' ∷ (w ++ (s' ++ r)))) (Gap-StopsAt b'|' (w ++ (s' ++ r)) g refl)
        (at_bar (w ++ (s' ++ r)) g) (bar_next g h sq t r stop end next) f)

-- The signs that may stand behind a type.
pub ty-append :
    {t : Ty} {s v : Text}
    → SpellsTy t s
    → Gap v
    → (c : ℕ) (r : Text) → ws_item (c ∷ r) ≡ none
    → is_name_part c ≡ false
    → (b'[' == c) ≡ false
    → (b'|' == c) ≡ false
    → ty (s ++ (v ++ (c ∷ r))) ≡ matched t (v ++ (c ∷ r))
unfolding ty
ty-append {t} {s} {v} sp g c r solid part bracket bar =
    let text = s ++ (v ++ (c ∷ r)) in
    let end : Closed 0 (v ++ (c ∷ r)) = closed c r g solid bracket bar in
    Yields-matched
      (ty_complete sp (v ++ (c ∷ r)) (Gap-StopsAt c r g part) (Closed-lower end)
        (λ k. operators-Closed end t k) (suc (length text)))
      (Leaves-out_of_fuel (ty-Leaves text))
