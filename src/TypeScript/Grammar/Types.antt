-- ===== src/TypeScript/Grammar/Types.antt =====
-- The rule for types reads every spelling of a type, and leaves what follows.
use dbcrossbar.Base.{
  ℕ, Bool, true, false, List, [], ◌∷◌, ◌++◌, none, Text, codes, all, ◌≡◌, refl, ap, ◌∙◌, sym,
  strip_prefix, strip_prefix-append, append_assoc, ◌==◌, Bool-cases, inl, inr, subst, and_both,
  ==_iff,
}
use dbcrossbar.BigQuery.Grammar.{is_name_part}
use dbcrossbar.Peg.{matched, failed, literal, of_option}
use dbcrossbar.Peg.Spans.{StopsAt, span-append}
use dbcrossbar.TypeScript.Ast.{Ty}
use dbcrossbar.TypeScript.Grammar.{keywords, keyword, identifier, atom, ws_opt, ws_item}
use dbcrossbar.TypeScript.Grammar.Gaps.{ws_opt-Gap, name_start-no_gap}
use dbcrossbar.TypeScript.Grammar.Spelling.{
  Gap, IsIdentifier, IsFree, Listed, here, later, SpellsOperand, word, a_ref, an_array, SpellsTy,
  operand, a_union,
}

pub identifier-append :
    (id r : Text) → IsIdentifier id → StopsAt is_name_part r → identifier (id ++ r) ≡ matched id r
unfolding identifier
identifier-append [] r h stop = absurd h
identifier-append (c ∷ id) r (start, part) stop =
    rw (start, span-append is_name_part id r part stop)

true_not_false : ◌≡◌ {A = Bool} true false → ⊥
true_not_false h = cc

pub literal-none : (p ts : Text) → strip_prefix p ts ≡ none → literal p ts ≡ failed
unfolding literal
literal-none p ts h = rw h

-- A keyword that is no prefix of a name is none of the name and what follows it, unless what
-- follows goes on with the keyword.
name_goes_on :
    (k id r : Text)
    → all is_name_part k ≡ true
    → strip_prefix k id ≡ none
    → StopsAt is_name_part r
    → strip_prefix k (id ++ r) ≡ none
unfolding strip_prefix
name_goes_on [] id r letters free stop = absurd (cc)
name_goes_on (a ∷ k) [] [] letters free stop = refl
name_goes_on (a ∷ k) [] (b ∷ r) letters free stop = elim (Bool-cases (a == b)) [
  | inl same ↦
      let part : is_name_part a ≡ true =
        (and_both (is_name_part a) (all is_name_part k) letters).0 in
      let equal = (==_iff a b).0 same in
      absurd (true_not_false (sym (subst (λ c. is_name_part c ≡ true) equal part) ∙ stop))
  | inr other ↦ rw other
]
name_goes_on (a ∷ k) (b ∷ id) r letters free stop = elim (Bool-cases (a == b)) [
  | inl same ↦ rw same (
      name_goes_on k id r (and_both (is_name_part a) (all is_name_part k) letters).1
        (rw same at free) stop)
  | inr other ↦ rw other
]

keyword-free :
    (ks : List (Text × Ty)) (id r : Text)
    → all (λ (k, t). all is_name_part k) ks ≡ true
    → IsFree ks id
    → StopsAt is_name_part r
    → keyword ks (id ++ r) ≡ failed
unfolding keyword
keyword-free [] id r words free stop = refl
keyword-free ((k, t) ∷ ks) id r words (unmet, free) stop =
    let (first, rest) =
      and_both (all is_name_part k) (all (λ (k', t'). all is_name_part k') ks) words in
    rw (literal-none k (id ++ r) (name_goes_on k id r first unmet stop))
      (keyword-free ks id r rest free stop)

Each : (Text × Ty → Type 0) → List (Text × Ty) → Type 0
Each P [] = Unit
Each P (e ∷ es) = P e × Each P es

Each-Listed :
    (P : Text × Ty → Type 0) {e : Text × Ty} {es : List (Text × Ty)} → Each P es → Listed e es → P e
unfolding Each
Each-Listed P h here = h.0
Each-Listed P h (later m) = Each-Listed P h.1 m

pub keyword-no_gap :
    {k : Text} {t : Ty} (r : Text) → Listed (k, t) keywords → ws_item (k ++ r) ≡ none
unfolding ws_item strip_prefix Each
keyword-no_gap r m =
    Each-Listed (λ (k, t). ws_item (k ++ r) ≡ none)
      (refl, (refl, (refl, (refl, (refl, (refl, tt)))))) m

pub keyword-Listed :
    {k : Text} {t : Ty} (r : Text) → Listed (k, t) keywords → atom (k ++ r) ≡ matched t r
unfolding atom keyword literal strip_prefix Each
keyword-Listed r m =
    Each-Listed (λ (k, t). atom (k ++ r) ≡ matched t r)
      (refl, (refl, (refl, (refl, (refl, (refl, tt)))))) m

pub name_text :
    (id : Text)
    → IsFree keywords id
    → IsIdentifier id
    → (r : Text) → StopsAt is_name_part r
    → atom (id ++ r) ≡ matched (Ty.ref id) r
unfolding atom
name_text id free ident r stop =
    rw (keyword-free keywords id r refl free stop, identifier-append id r ident stop)

-- What the first character of an operand is.
pub ident-no_gap : (id r : Text) → IsIdentifier id → ws_item (id ++ r) ≡ none
ident-no_gap [] r h = absurd h
ident-no_gap (c ∷ id) r h = name_start-no_gap c (id ++ r) h.0

pub operand-no_gap : {t : Ty} {s : Text} → SpellsOperand t s → (r : Text) → ws_item (s ++ r) ≡ none
operand-no_gap (word m) r = keyword-no_gap r m
operand-no_gap (a_ref id ident free) r = ident-no_gap id r ident
operand-no_gap (an_array {s = s} {v} {w} sp g h) r =
    rw (append_assoc s (v ++ (codes "[" ++ (w ++ codes "]"))) r) (operand-no_gap sp _)

pub SpellsTy-no_gap : {t : Ty} {s : Text} → SpellsTy t s → (r : Text) → ws_item (s ++ r) ≡ none
SpellsTy-no_gap (operand sp) r = operand-no_gap sp r
SpellsTy-no_gap (a_union {s = s} {s'} {v} {w} sp g h sq) r =
    rw (append_assoc s (v ++ (codes "|" ++ (w ++ s'))) r) (SpellsTy-no_gap sp _)

-- Behind a gap, a sign.
module _ {w : Text} (g : Gap w) (c : ℕ) (r : Text) where
  pub sign : ws_item (c ∷ r) ≡ none → literal (c ∷ []) (ws_opt (w ++ (c ∷ r))) ≡ matched tt r
  unfolding literal strip_prefix
  sign solid = rw (ws_opt-Gap (c ∷ r) g solid) (ap of_option (strip_prefix-append (c ∷ []) r))

  pub other_sign :
      ws_item (c ∷ r) ≡ none
      → (d : ℕ) → (d == c) ≡ false
      → literal (d ∷ []) (ws_opt (w ++ (c ∷ r))) ≡ failed
  unfolding literal strip_prefix
  other_sign solid d differ = rw (ws_opt-Gap (c ∷ r) g solid) (rw differ)
