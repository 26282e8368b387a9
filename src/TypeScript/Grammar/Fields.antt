-- ===== src/TypeScript/Grammar/Fields.antt =====
-- The grammar reads every spelling of the fields of an interface.
use dbcrossbar.TypeScript.Grammar.Fuel.{more_fields-Leaves}
use dbcrossbar.Peg.Leaves.{Leaves-out_of_fuel}
use dbcrossbar.Base.{
  ℕ, zero, suc, Bool, true, List, [], ◌∷◌, ◌++◌, none, Text, codes, ◌≡◌, refl, ap, append_assoc,
  arith, ◌==◌, ◌||◌, strip_prefix-append, length, false,
}
use dbcrossbar.BigQuery.Grammar.{is_name_part, is_name_start}
use dbcrossbar.Peg.{matched, failed, literal, of_option}
use dbcrossbar.Peg.Spans.{StopsAt}
use dbcrossbar.Peg.Outcome.{Yields, done, gave_up, Yields-orelse_left, Yields-bind, Yields-matched}
use dbcrossbar.TypeScript.Ast.{Ty, Field}
use dbcrossbar.TypeScript.Grammar.{
  fields, ty, ws_opt, ws_item, identifier, optional_mark, field, more_fields, trailing_comma,
}
use dbcrossbar.TypeScript.Grammar.Gaps.{ws_opt-Gap, no_gap, Gap-StopsAt}
use dbcrossbar.TypeScript.Grammar.Types.{
  sign, other_sign, identifier-append, ident-no_gap, SpellsTy-no_gap,
}
use dbcrossbar.TypeScript.Grammar.Operators.{ty-append}
use dbcrossbar.TypeScript.Grammar.Spelling.{
  Gap, SpellsTy, SpellsMark, marked, unmarked, SpellsField, a_field, SpellsMore, no_more,
  last_comma, one_more, SpellsFields, some_fields, blank, line, block, nothing, no_fields,
}

-- The signs behind a type: a comma, a closing brace or a semicolon.
abbrev pub is_stop : ℕ → Bool
is_stop c = c == b',' || (c == b'}' || c == b';')

pub data Ends : Text → Type 0 where
  ends : {v : Text} → Gap v → (c : ℕ) → is_stop c ≡ true → (r : Text) → Ends (v ++ (c ∷ r))

stop_solid : (c : ℕ) (r : Text) → is_stop c ≡ true → ws_item (c ∷ r) ≡ none
stop_solid c r h = no_gap c r (ground arith) (ground arith)

pub ty-Ends : {t : Ty} {s r : Text} → SpellsTy t s → Ends r → ty (s ++ r) ≡ matched t r
ty-Ends sp (ends g c stop r) =
    ty-append sp g c r (stop_solid c r stop) (ground arith) (ground arith) (ground arith)

pub literal-append : (p r : Text) → literal p (p ++ r) ≡ matched tt r
unfolding literal
literal-append p r = ap of_option (strip_prefix-append p r)

module _ (id m w s r : Text) where
  regroup_field :
      (id ++ (m ++ (codes ":" ++ (w ++ s)))) ++ r ≡ id ++ (m ++ (b':' ∷ (w ++ (s ++ r))))
  regroup_field = simp append_assoc

mark_read :
    {optional : Bool} {m : Text}
    → SpellsMark optional m
    → (r : Text) → optional_mark (m ++ (b':' ∷ r)) ≡ matched optional (b':' ∷ r)
unfolding optional_mark
mark_read (marked {w} g) r =
    rw (append_assoc w (codes "?") (b':' ∷ r))
      (rw (sign g b'?' (b':' ∷ r) (no_gap b'?' (b':' ∷ r) refl refl)))
mark_read unmarked r = refl

mark_stops :
    {optional : Bool} {m : Text}
    → SpellsMark optional m
    → (r : Text) → StopsAt is_name_part (m ++ (b':' ∷ r))
mark_stops (marked {w} g) r =
    rw (append_assoc w (codes "?") (b':' ∷ r)) (Gap-StopsAt b'?' (b':' ∷ r) g refl)
mark_stops unmarked r = refl

field-append : {f : Field} {s r : Text} → SpellsField f s → Ends r → field (s ++ r) ≡ matched f r
unfolding field
field-append {r = r} (a_field {m = m} {w = w} {s = s} id ident mark g sp) e =
    rw (regroup_field id m w s r) (
      rw
        (identifier-append id (m ++ (b':' ∷ (w ++ (s ++ r)))) ident
          (mark_stops mark (w ++ (s ++ r))))
        (rw (mark_read mark (w ++ (s ++ r)))
          (rw (ws_opt-Gap (s ++ r) g (SpellsTy-no_gap sp r)) (rw (ty-Ends sp e)))))

pub field-no_gap : {f : Field} {s : Text} → SpellsField f s → (r : Text) → ws_item (s ++ r) ≡ none
field-no_gap (a_field {m = m} {w = w} {s = s} id ident mark g sp) r =
    rw (regroup_field id m w s r) (ident-no_gap id (m ++ (b':' ∷ (w ++ (s ++ r)))) ident)

-- Behind the last field, the gap before the closing brace.
abbrev Closing : Text → Type 0
Closing t = (u : Text) × Gap u × (q : Text) × (t ≡ u ++ (b'}' ∷ q))

more-Ends : {fs : List Field} {s t : Text} → SpellsMore fs s → Ends t → Ends (s ++ t)
more-Ends no_more e = e
more-Ends {t = t} (last_comma {w} g) e = rw (append_assoc w (codes ",") t) (ends g b',' refl t)
more-Ends {t = t} (one_more {v = v} {w} {s} {s'} g h sp sps) e =
    rw (append_assoc v (codes "," ++ (w ++ (s ++ s'))) t) (ends g b',' refl ((w ++ (s ++ s')) ++ t))

-- What `more_fields` leaves, with a comma at the end skipped.
abbrev MoreRead : List Field → Text → Text → Type 0
MoreRead fs text t =
    (rest : Text) × ((f : ℕ) → Yields fs rest (more_fields f text)) × (trailing_comma rest ≡ t)

regroup_more :
    (v w s s' t : Text)
    → (v ++ (codes "," ++ (w ++ (s ++ s')))) ++ t ≡ v ++ (b',' ∷ (w ++ (s ++ (s' ++ t))))
regroup_more v w s s' t = simp append_assoc

module _ {u : Text} (k : Gap u) (q : Text) where
  closing_solid : ws_item (b'}' ∷ q) ≡ none
  closing_solid = no_gap b'}' q refl refl

  no-MoreRead : MoreRead [] (u ++ (b'}' ∷ q)) (u ++ (b'}' ∷ q))
  no-MoreRead = (u ++ (b'}' ∷ q), here, stays)
    where
      comma : literal (b',' ∷ []) (ws_opt (u ++ (b'}' ∷ q))) ≡ failed
      comma = other_sign k b'}' q closing_solid b',' refl

      here : (f : ℕ) → Yields [] (u ++ (b'}' ∷ q)) (more_fields f (u ++ (b'}' ∷ q)))
      here zero = unfold more_fields in gave_up
      here (suc f) = unfold more_fields in (rw comma done)

      stays : trailing_comma (u ++ (b'}' ∷ q)) ≡ u ++ (b'}' ∷ q)
      stays = unfold trailing_comma in (rw comma)

  last_comma-MoreRead :
      {w : Text} → Gap w → MoreRead [] (w ++ (b',' ∷ (u ++ (b'}' ∷ q)))) (u ++ (b'}' ∷ q))
  last_comma-MoreRead {w} g = (text, here, unfold trailing_comma in (rw comma))
    where
      text : Text
      text = w ++ (b',' ∷ (u ++ (b'}' ∷ q)))

      comma :
          literal (b',' ∷ []) (ws_opt (w ++ (b',' ∷ (u ++ (b'}' ∷ q)))))
          ≡ matched tt (u ++ (b'}' ∷ q))
      comma = sign g b',' (u ++ (b'}' ∷ q)) (no_gap b',' (u ++ (b'}' ∷ q)) refl refl)

      here :
          (f : ℕ)
          → Yields []
              (w ++ (b',' ∷ (u ++ (b'}' ∷ q))))
              (more_fields f (w ++ (b',' ∷ (u ++ (b'}' ∷ q)))))
      here zero = unfold more_fields in gave_up
      here (suc f) =
          unfold more_fields in (rw comma (rw (ws_opt-Gap (b'}' ∷ q) k closing_solid) done))

  one-MoreRead :
      {f : Field} {fs : List Field} {v w s t : Text}
      → Gap v
      → Gap w
      → SpellsField f s
      → Ends t
      → MoreRead fs t (u ++ (b'}' ∷ q))
      → MoreRead (f ∷ fs) (v ++ (b',' ∷ (w ++ (s ++ t)))) (u ++ (b'}' ∷ q))
  one-MoreRead {f} {fs} {v} {w} {s} {t} g h sp e (rest, read, stays) = (rest, here, stays)
    where
      here : (n : ℕ) → Yields (f ∷ fs) rest (more_fields n (v ++ (b',' ∷ (w ++ (s ++ t)))))
      here zero = unfold more_fields in gave_up
      here (suc n) =
          unfold more_fields in
          (rw (sign g b',' (w ++ (s ++ t)) (no_gap b',' (w ++ (s ++ t)) refl refl)) (
            rw (ws_opt-Gap (s ++ t) h (field-no_gap sp t))
              (rw (field-append sp e) (Yields-orelse_left _ (Yields-bind _ (read n) done)))))

  SpellsMore-MoreRead :
      {fs : List Field} {s : Text}
      → SpellsMore fs s
      → MoreRead fs (s ++ (u ++ (b'}' ∷ q))) (u ++ (b'}' ∷ q))
  SpellsMore-MoreRead no_more = no-MoreRead
  SpellsMore-MoreRead (last_comma {w} g) =
      rw (append_assoc w (codes ",") (u ++ (b'}' ∷ q))) (last_comma-MoreRead g)
  SpellsMore-MoreRead (one_more {v = v} {w} {s} {s'} g h sp sps) =
      rw (regroup_more v w s s' (u ++ (b'}' ∷ q)))
        (one-MoreRead g h sp (more-Ends sps (ends k b'}' refl q)) (SpellsMore-MoreRead sps))

  field-Gap_failed : {v : Text} → Gap v → field (v ++ (b'}' ∷ q)) ≡ failed
  unfolding field identifier
  field-Gap_failed nothing = refl
  field-Gap_failed (blank c b g) = let other : is_name_start c ≡ false = ground arith in rw other
  field-Gap_failed (line s e g) = refl
  field-Gap_failed (block s e g) = refl

  -- The fields of an interface, up to the closing brace.
  pub fields-append :
      {fs : List Field} {s : Text}
      → SpellsFields fs s
      → fields (s ++ (u ++ (b'}' ∷ q))) ≡ matched fs (u ++ (b'}' ∷ q))
  unfolding fields
  fields-append no_fields =
      rw (field-Gap_failed k) (rw (other_sign k b'}' q closing_solid b',' refl))
  fields-append (some_fields {s = s} {s'} sp sps) =
      let t : Text = s' ++ (u ++ (b'}' ∷ q)) in
      let (rest, read, stays) = SpellsMore-MoreRead sps in
      rw (append_assoc s s' (u ++ (b'}' ∷ q))) (
        rw (field-append sp (more-Ends sps (ends k b'}' refl q))) (
          rw
            (Yields-matched (read (suc (length t)))
              (Leaves-out_of_fuel (more_fields-Leaves (suc (length t)) t (omega arith))))
            (rw stays)))
