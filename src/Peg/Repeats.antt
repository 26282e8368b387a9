-- ===== src/Peg/Repeats.antt =====
-- Repetitions `item()*` of a rule that matches no value, as long as the rule matches.
use dbcrossbar.Base.{
  ℕ, zero, suc, ◌≤◌, ◌<◌, ◌≡◌, refl, Option, none, some, Option-cases, Text, length, [], ◌∷◌, arith,
  inl, inr,
}

abbrev pub go_on : Option Text → Text → (Text → Text) → Text
go_on none ts more = ts
go_on (some rest) ts more = more rest

-- On fuel, of which the length of the input is enough where each item takes a character.
unfoldable pub star : (Text → Option Text) → ℕ → Text → Text
star item zero ts = ts
star item (suc f) ts = go_on (item ts) ts (λ rest. star item f rest)

-- At most `n` characters are left, if anything is.
abbrev pub Within : ℕ → Option Text → Type 0
Within n none = Unit
Within n (some r) = length r ≤ n

module _ (item : Text → Option Text) where
  pub star_stop : (f : ℕ) (ts : Text) → item ts ≡ none → star item f ts ≡ ts
  unfolding star
  star_stop zero ts h = refl
  star_stop (suc f) ts h = rw h refl

  module _ (takes : (ts r : Text) → item ts ≡ some r → length r < length ts) where
    pub star-le : (f : ℕ) (ts : Text) → length (star item f ts) ≤ length ts
    unfolding star
    star-le zero ts = omega arith
    star-le (suc f) ts = elim (Option-cases (item ts)) [
      | inl e ↦ rw e (omega arith)
      | inr (r, e) ↦ let less = takes ts r e in let le = star-le f r in rw e (omega arith)
    ]

    item_empty : item [] ≡ none
    item_empty = elim (Option-cases (item [])) [
      | inl e ↦ e
      | inr (r, e) ↦ let less = takes [] r e in absurd (omega arith)
    ]

    -- With fuel for the whole input, the repetition stops only where no item stands.
    pub star-stops : (f : ℕ) (ts : Text) → length ts ≤ f → item (star item f ts) ≡ none
    unfolding star
    star-stops zero [] h = item_empty
    star-stops zero (c ∷ ts) h = absurd (omega arith)
    star-stops (suc f) ts h = elim (Option-cases (item ts)) [
      | inl e ↦ rw e e
      | inr (r, e) ↦ let less = takes ts r e in rw e (star-stops f r (omega arith))
    ]
