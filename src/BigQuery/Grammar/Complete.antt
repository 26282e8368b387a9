-- ===== src/BigQuery/Grammar/Complete.antt =====
-- The parser reads every spelling of a type, and leaves what follows.
use dbcrossbar.Base.{
  ◌≡◌, refl, Option, Text, codes, [], ◌∷◌, ◌++◌, append_assoc, zero, suc, ℕ, arith, and_both, all,
}
use dbcrossbar.BigQuery.ColumnName.{ColumnName, try_from}
use dbcrossbar.BigQuery.Types.{BqDataType, BqNonArrayDataType, BqFields, nil}
use dbcrossbar.Peg.{failed, literal}
use dbcrossbar.BigQuery.Grammar.{
  is_blank, keyword, blanks, field_name, data_type, non_array_data_type, fields, more_fields,
  one_field, after_name, is_name_part,
}
use dbcrossbar.Peg.Outcome.{
  Yields, done, gave_up, Rejects, no_match, broke_off, Yields-eq, Yields-orelse_left,
  Yields-orelse_right, Yields-bind, Rejects-bind_first,
}
use dbcrossbar.BigQuery.Grammar.Spelling.{
  SpellsType, Spells, SpellsFields, SpellsField, an_array, plain, a_keyword, a_struct, last, more,
  named, anonymous, IsBlank,
}
use dbcrossbar.BigQuery.Grammar.Keywords.{
  Delimited, at_end, comma, close, Each-Listed, keyword-Listed, field_name-Listed,
}
use dbcrossbar.BigQuery.Grammar.Names.{blanks-append, field_name-append}
use dbcrossbar.Peg.Spans.{StopsAt}

-- A spelling begins with a capital letter, and only an array's begins with `A`.
Spells-solid :
    {ty : BqNonArrayDataType} {s : Text} → Spells ty s → (r : Text) → StopsAt is_blank (s ++ r)
Spells-solid (a_keyword m) r =
    Each-Listed (λ (k, ty). StopsAt is_blank (k ++ r))
      (
        refl,
        (
          refl,
          (
            refl,
            (
              refl,
              (refl, (refl, (refl, (refl, (refl, (refl, (refl, (refl, (refl, (refl, tt)))))))))),
            ),
          ),
        ),
      )
      m
Spells-solid (a_struct fs) r = refl

SpellsType-solid :
    {ty : BqDataType} {s : Text} → SpellsType ty s → (r : Text) → StopsAt is_blank (s ++ r)
SpellsType-solid (an_array sp) r = refl
SpellsType-solid (plain sp) r = Spells-solid sp r

SpellsField-solid :
    {name : Option ColumnName} {ty : BqDataType} {s : Text}
    → SpellsField name ty s
    → (r : Text) → StopsAt is_blank (s ++ r)
SpellsField-solid (named [] h b w blank sp) r = cc h.0
SpellsField-solid (named (c ∷ x) h b w blank sp) r = let start = h.0 in ground arith
SpellsField-solid (anonymous sp) r = SpellsType-solid sp r

regroup :
    (s w s' r : Text)
    → (s ++ (codes "," ++ (w ++ s'))) ++ b'>' ∷ r ≡ s ++ b',' ∷ (w ++ (s' ++ b'>' ∷ r))
regroup s w s' r = simp append_assoc

regroup_named :
    (x : Text) (b : ℕ) (w s r : Text) → (x ++ (b ∷ w ++ s)) ++ r ≡ x ++ b ∷ (w ++ (s ++ r))
regroup_named x b w s r = simp append_assoc

-- A blank is no part of a name.
blank_stops : (b : ℕ) (w r : Text) → IsBlank (b ∷ w) → StopsAt is_name_part (b ∷ r)
blank_stops b w r h = let first = (and_both (is_blank b) (all is_blank w) h).0 in ground arith

no_array :
    {ty : BqNonArrayDataType} {s : Text}
    → Spells ty s
    → (r : Text) → literal (codes "ARRAY<") (s ++ r) ≡ failed
unfolding literal
no_array (a_keyword m) r =
    Each-Listed (λ (k, ty). literal (codes "ARRAY<") (k ++ r) ≡ failed)
      (
        refl,
        (
          refl,
          (
            refl,
            (
              refl,
              (refl, (refl, (refl, (refl, (refl, (refl, (refl, (refl, (refl, (refl, tt)))))))))),
            ),
          ),
        ),
      )
      m
no_array (a_struct fs) r = refl

-- No type begins at a delimiter, nor at the bracket behind `ARRAY` or `STRUCT`.
data_type-delimiter : {r : Text} → Delimited r → (f : ℕ) → Rejects (data_type f r)
unfolding data_type literal keyword
data_type-delimiter d zero = broke_off
data_type-delimiter at_end (suc zero) = broke_off
data_type-delimiter (comma r) (suc zero) = broke_off
data_type-delimiter (close r) (suc zero) = broke_off
data_type-delimiter at_end (suc (suc f)) = no_match
data_type-delimiter (comma r) (suc (suc f)) = no_match
data_type-delimiter (close r) (suc (suc f)) = no_match

data_type-open : (r : Text) (f : ℕ) → Rejects (data_type f (b'<' ∷ r))
unfolding data_type literal keyword
data_type-open r zero = broke_off
data_type-open r (suc zero) = broke_off
data_type-open r (suc (suc f)) = no_match

blanks-delimiter : {r : Text} → Delimited r → blanks r ≡ r
blanks-delimiter {r} d = blanks-append [] r refl (stop d)
  where
    stop : {t : Text} → Delimited t → StopsAt is_blank t
    stop at_end = tt
    stop (comma r) = refl
    stop (close r) = refl

-- Where a type stands with no name before it, its first word is taken for a name at first, and no
-- type follows that.
anonymous-Rejects :
    {ty : BqDataType} {s r : Text}
    → SpellsType ty s
    → Delimited r
    → (f : ℕ) → Rejects (after_name (data_type f) (s ++ r))
anonymous-Rejects {r} (plain (a_keyword m)) d f =
    let (n, read) = field_name-Listed m d in
    rw read (rw (blanks-delimiter d) (Rejects-bind_first _ (data_type-delimiter d f)))
anonymous-Rejects (plain (a_struct fs)) d f =
    unfold field_name try_from blanks in Rejects-bind_first _ (data_type-open _ f)
anonymous-Rejects (an_array sp) d f =
    unfold field_name try_from blanks in Rejects-bind_first _ (data_type-open _ f)

no_more : (r : Text) (f : ℕ) → Yields nil (b'>' ∷ r) (more_fields f (b'>' ∷ r))
unfolding data_type literal
no_more r zero = gave_up
no_more r (suc f) = done

-- The recursion over a spelling. What is left of the fuel does not matter: a rule yields what was
-- spelled, or has run out.
mutual
  unfolding data_type literal keyword

  pub type_complete :
      {ty : BqDataType} {s r : Text}
      → SpellsType ty s
      → Delimited r
      → (f : ℕ) → Yields ty r (data_type f (s ++ r))
  type_complete sp d zero = gave_up
  type_complete {r} (an_array {s = s} sp) d (suc f) =
      rw (append_assoc s (codes ">") r)
        (Yields-orelse_left _ (Yields-bind _ (non_array_complete sp (close r) f) done))
  type_complete {r} (plain sp) d (suc f) =
      rw (no_array sp r) (Yields-bind _ (non_array_complete sp d f) done)

  non_array_complete :
      {ty : BqNonArrayDataType} {s r : Text}
      → Spells ty s
      → Delimited r
      → (f : ℕ) → Yields ty r (non_array_data_type f (s ++ r))
  non_array_complete sp d zero = gave_up
  non_array_complete (a_keyword m) d (suc f) = Yields-orelse_left _ (Yields-eq (keyword-Listed m d))
  non_array_complete {r} (a_struct {s = s} fs) d (suc f) =
      rw (append_assoc s (codes ">") r) (Yields-bind _ (fields_complete fs r f) done)

  fields_complete :
      {fs : BqFields} {s : Text}
      → SpellsFields fs s
      → (r : Text) (f : ℕ) → Yields fs (b'>' ∷ r) (fields f (s ++ b'>' ∷ r))
  fields_complete sp r zero = gave_up
  fields_complete (last sp) r (suc f) =
      Yields-bind _ (field_complete sp (close r) f) (Yields-bind _ (no_more r f) done)
  fields_complete (more {s = s} {s' = s'} sp w h sps) r (suc f) = rw (regroup s w s' r) (
      Yields-bind _ (field_complete sp (comma _) f)
        (Yields-bind _ (more_complete sps w h r f) done))

  more_complete :
      {fs : BqFields} {s : Text}
      → SpellsFields fs s
      → (w : Text) → IsBlank w
      → (r : Text) (f : ℕ) → Yields fs (b'>' ∷ r) (more_fields f (b',' ∷ (w ++ (s ++ b'>' ∷ r))))
  more_complete sp w h r zero = gave_up
  more_complete (last {s = s} sp) w h r (suc f) =
      rw (blanks-append w (s ++ b'>' ∷ r) h (SpellsField-solid sp _)) (
        Yields-orelse_left _
          (Yields-bind _ (field_complete sp (close r) f) (Yields-bind _ (no_more r f) done)))
  more_complete (more {s = s} {s' = s'} sp w' h' sps) w h r (suc f) = rw (regroup s w' s' r) (
      rw (blanks-append w (s ++ b',' ∷ (w' ++ (s' ++ b'>' ∷ r))) h (SpellsField-solid sp _)) (
        Yields-orelse_left _ (
          Yields-bind _ (field_complete sp (comma _) f)
            (Yields-bind _ (more_complete sps w' h' r f) done))))

  field_complete :
      {name : Option ColumnName} {ty : BqDataType} {s r : Text}
      → SpellsField name ty s
      → Delimited r
      → (f : ℕ) → Yields (name, ty) r (one_field f (s ++ r))
  field_complete sp d zero = gave_up
  field_complete {r} (named {s = s} x h b w blank sp) d (suc f) = rw (regroup_named x b w s r) (
      rw (field_name-append x (b ∷ (w ++ (s ++ r))) h (blank_stops b w [] blank)) (
        rw (blanks-append (b ∷ w) (s ++ r) blank (SpellsType-solid sp r))
          (Yields-orelse_left _ (Yields-bind _ (type_complete sp d f) done))))
  field_complete (anonymous sp) d (suc f) =
      Yields-orelse_right (anonymous-Rejects sp d f) (Yields-bind _ (type_complete sp d f) done)
