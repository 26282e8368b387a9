-- ===== src/BigQuery/Grammar/Fuel.antt =====
-- The fuel that the public rules hand out is enough for every input.
use dbcrossbar.Peg.Leaves.{
  span-le, Leaves, Leaves-out_of_fuel, finish-Answers, Leaves-Answers, Answers, refused, left,
  Leaves-orelse, literal-Leaves, Leaves-bind,
}
use dbcrossbar.Base.{
  zero, suc, ℕ, ◌≤◌, ◌≡◌, List, [], ◌∷◌, Text, length, arith, inl, inr, Bool-cases, codes, ◌+◌, ◌*◌,
  ◌<◌,
}
use dbcrossbar.BigQuery.Types.{BqNonArrayDataType}
use dbcrossbar.Peg.{out_of_fuel}
use dbcrossbar.BigQuery.Grammar.Names.{expect-span}
use dbcrossbar.BigQuery.Grammar.{
  blanks, is_blank, is_name_part, is_name_start, field_name, keyword, data_type,
  non_array_data_type, parse_data_type, enough, parse_non_array_data_type,
  parse_record_or_non_array_data_type, keywords, fields, more_fields, one_field,
}

blanks-le : (ts : Text) → length (blanks ts) ≤ length ts
unfolding blanks
blanks-le ts = span-le is_blank ts

keyword-Leaves :
    (ks : List (Text × BqNonArrayDataType)) (ts : Text) → Leaves (length ts) (keyword ks ts)
unfolding keyword
keyword-Leaves [] ts = refused
keyword-Leaves ((k, ty) ∷ ks) ts =
    Leaves-orelse (literal-Leaves _ k ts λ r h. left ty r (omega arith)) (keyword-Leaves ks ts)

field_name-Leaves : (ts : Text) → Leaves (length ts) (field_name ts)
unfolding field_name
field_name-Leaves [] = refused
field_name-Leaves (c ∷ ts) = elim (Bool-cases (is_name_start c)) [
  | inl start ↦
      let le = span-le is_name_part ts in
      rw (start, expect-span c ts start) (left _ _ (omega arith))
  | inr other ↦ rw other refused
]

-- With `r` characters of input left, a rule stays within its fuel; each rule has its own margin.
mutual
  unfolding data_type

  data_type-Leaves :
      (f : ℕ) (ts : Text) → 4 * length ts + 2 < f → Leaves (length ts) (data_type f ts)
  data_type-Leaves zero ts h = absurd (omega arith)
  data_type-Leaves (suc f) ts h =
      Leaves-orelse
        (literal-Leaves _ (codes "ARRAY<") ts λ r le.
          Leaves-bind (non_array-Leaves f r (omega arith))
            λ ty r₂ le₂. literal-Leaves _ (codes ">") r₂ λ r₃ le₃. left _ r₃ (omega arith))
        (Leaves-bind (non_array-Leaves f ts (omega arith)) λ ty r le. left _ r le)

  non_array-Leaves :
      (f : ℕ) (ts : Text) → 4 * length ts + 1 < f → Leaves (length ts) (non_array_data_type f ts)
  non_array-Leaves zero ts h = absurd (omega arith)
  non_array-Leaves (suc f) ts h = Leaves-orelse (keyword-Leaves keywords ts) (
      literal-Leaves _ (codes "STRUCT<") ts λ r le.
        Leaves-bind (fields-Leaves f r (omega arith))
          λ fs r₂ le₂. literal-Leaves _ (codes ">") r₂ λ r₃ le₃. left _ r₃ (omega arith))

  fields-Leaves : (f : ℕ) (ts : Text) → 4 * length ts + 4 < f → Leaves (length ts) (fields f ts)
  fields-Leaves zero ts h = absurd (omega arith)
  fields-Leaves (suc f) ts h =
      Leaves-bind (one_field-Leaves f ts (omega arith)) λ (name, ty) r₁ le₁.
        Leaves-bind (more_fields-Leaves f r₁ (omega arith)) λ fs r₂ le₂. left _ r₂ (omega arith)

  more_fields-Leaves :
      (f : ℕ) (ts : Text) → 4 * length ts + 1 < f → Leaves (length ts) (more_fields f ts)
  more_fields-Leaves zero ts h = absurd (omega arith)
  more_fields-Leaves (suc f) ts h =
      Leaves-orelse
        (literal-Leaves _ (codes ",") ts λ r₁ le₁.
          let shorter = blanks-le r₁ in
          Leaves-bind (one_field-Leaves f (blanks r₁) (omega arith)) λ (name, ty) r₂ le₂.
            Leaves-bind (more_fields-Leaves f r₂ (omega arith))
              λ fs r₃ le₃. left _ r₃ (omega arith))
        (left _ ts (omega arith))

  one_field-Leaves :
      (f : ℕ) (ts : Text) → 4 * length ts + 3 < f → Leaves (length ts) (one_field f ts)
  one_field-Leaves zero ts h = absurd (omega arith)
  one_field-Leaves (suc f) ts h =
      Leaves-orelse
        (Leaves-bind (field_name-Leaves ts) λ name r₁ le₁.
          let shorter = blanks-le r₁ in
          Leaves-bind (data_type-Leaves f (blanks r₁) (omega arith))
            λ ty r₂ le₂. left _ r₂ (omega arith))
        (Leaves-bind (data_type-Leaves f ts (omega arith)) λ ty r le. left _ r le)

pub data_type-ne-out_of_fuel : (ts : Text) → data_type (enough ts) ts ≡ out_of_fuel → ⊥
data_type-ne-out_of_fuel ts = Leaves-out_of_fuel (data_type-Leaves (enough ts) ts (omega arith))

pub non_array-ne-out_of_fuel : (ts : Text) → non_array_data_type (enough ts) ts ≡ out_of_fuel → ⊥
non_array-ne-out_of_fuel ts = Leaves-out_of_fuel (non_array-Leaves (enough ts) ts (omega arith))

-- Whatever the input, the three public rules of the grammar come to a match or to a failure: the
-- parser ends, the fuel of the model is never the reason for its answer, and the conversion of a
-- field's name, which is expected to succeed, does not panic.
pub parse_ends :
    (ts : Text)
    → Answers (parse_data_type ts)
      × Answers (parse_non_array_data_type ts)
      × Answers (parse_record_or_non_array_data_type ts)
unfolding parse_data_type parse_non_array_data_type parse_record_or_non_array_data_type
parse_ends ts = (
  finish-Answers _ (Leaves-Answers (data_type-Leaves (enough ts) ts (omega arith))),
  finish-Answers _ (Leaves-Answers (non_array-Leaves (enough ts) ts (omega arith))),
  finish-Answers _ (
      Leaves-Answers (
        Leaves-orelse (literal-Leaves _ (codes "RECORD") ts λ r le. left _ r (omega arith))
          (Leaves-bind (non_array-Leaves (enough ts) ts (omega arith)) λ ty r le. left _ r le))),
)
