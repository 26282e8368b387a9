-- ===== src/FromCsvCell/Laws.antt =====
-- dbcrossbarlib/src/from_csv_cell.rs: what is read as an integer, and that it fits.
use dbcrossbar.Base.{
  ℕ, ◌+◌, ◌-◌, ◌*◌, ◌%◌, ◌≤◌, ◌<◌, Bool, true, false, ◌&&◌, [], ◌∷◌, Option, none, some, Text, all,
  leb, ◌==◌, if◌then◌else◌, ◌≡◌, refl, ap, ◌∙◌, arith, Bool-cases, inl, inr, and_both,
}
use dbcrossbar.FromCsvCell.{
  is_digit, digits_from, digits, negative, parse_signed, i16_from_csv_cell, i32_from_csv_cell,
  i64_from_csv_cell,
}

-- The number that digits stand for, behind those that made `n`.
abbrev pub value_from : ℕ → Text → ℕ
value_from n [] = n
value_from n (c ∷ s) = value_from (n * 10 + (c - 48)) s

value_from-le : (n : ℕ) (s : Text) → n ≤ value_from n s
value_from-le n [] = omega arith
value_from-le n (c ∷ s) = let le = value_from-le (n * 10 + (c - 48)) s in omega arith

and_false : (b : Bool) → (b && false) ≡ false
and_false true = refl
and_false false = refl

too_large :
    (limit m : ℕ) (s : Text)
    → limit < m
    → none ≡ (if all is_digit s && leb (value_from m s) limit then some (value_from m s) else none)
too_large limit m s h =
    let le = value_from-le m s in
    let no_fit : leb (value_from m s) limit ≡ false = ground arith in rw (no_fit, and_false)

negative-if :
    (modulus : ℕ) (t : Bool) (n : ℕ)
    → negative modulus (if t then some n else none)
      ≡ (if t then some ((modulus - n) % modulus) else none)
negative-if modulus true n = refl
negative-if modulus false n = refl

-- Digits are read exactly when their number is within the limit.
digits_from_lem :
    (limit n : ℕ) (s : Text)
    → n ≤ limit
    → digits_from limit n s
      ≡ (if all is_digit s && leb (value_from n s) limit then some (value_from n s) else none)
unfolding digits_from
digits_from_lem limit n [] h = ground arith
digits_from_lem limit n (c ∷ s) h = elim (Bool-cases (is_digit c)) [
  | inr other ↦ rw other
  | inl digit ↦ elim (Bool-cases (leb (n * 10 + (c - 48)) limit)) [
    | inl small ↦ rw (digit, small) (digits_from_lem limit (n * 10 + (c - 48)) s (ground arith))
    | inr large ↦ rw (digit, large) (too_large limit (n * 10 + (c - 48)) s (ground arith))
  ]
]

digits_lem :
    (limit c : ℕ) (s : Text)
    → all is_digit (c ∷ s) ≡ true
    → digits limit (c ∷ s)
      ≡ (if leb (value_from 0 (c ∷ s)) limit then some (value_from 0 (c ∷ s)) else none)
unfolding digits
digits_lem limit c s h = digits_from_lem limit 0 (c ∷ s) (omega arith) ∙ rw h

digits_from-le : (limit n m : ℕ) (s : Text) → n ≤ limit → digits_from limit n s ≡ some m → m ≤ limit
unfolding digits_from
digits_from-le limit n m [] h e = ground arith
digits_from-le limit n m (c ∷ s) h e = ground (arith, digits_from-le limit (n * 10 + (c - 48)) m s)

digits-le : (limit m : ℕ) (s : Text) → digits limit s ≡ some m → m ≤ limit
unfolding digits
digits-le limit m [] e = absurd (cc)
digits-le limit m (c ∷ s) e = digits_from-le limit 0 m (c ∷ s) (omega arith) e

negative-lt :
    (half m : ℕ) (o : Option ℕ) → 0 < half → negative (half + half) o ≡ some m → m < half + half
negative-lt half m none h e = absurd (cc)
negative-lt half m (some n) h e = ground arith

-- A pattern of w bits is read, or nothing.
parse_signed-lt :
    (half m : ℕ) (cell : Text)
    → 0 < half
    → parse_signed half (half + half) cell ≡ some m
    → m < half + half
unfolding parse_signed
parse_signed-lt half m [] h e = absurd (cc)
parse_signed-lt half m (c ∷ s) h e = elim (Bool-cases (c == b'-')) [
  | inl minus ↦ negative-lt half m (digits half s) h (rw minus at e)
  | inr other ↦ elim (Bool-cases (c == b'+')) [
    | inl plus ↦ let le = digits-le (half - 1) m s (rw (other, plus) at e) in omega arith
    | inr plain ↦ let le = digits-le (half - 1) m (c ∷ s) (rw (other, plain) at e) in omega arith
  ]
]

parse_signed_bounds :
    (half c : ℕ) (s : Text)
    → 0 < half
    → all is_digit (c ∷ s) ≡ true
    → (parse_signed half (half + half) (c ∷ s)
        ≡ (if leb (value_from 0 (c ∷ s)) (half - 1) then some (value_from 0 (c ∷ s)) else none))
      × (parse_signed half (half + half) (b'-' ∷ c ∷ s) ≡ (
          if leb (value_from 0 (c ∷ s)) half
          then some ((half + half - value_from 0 (c ∷ s)) % (half + half))
          else none))
      × ((cell : Text) (m : ℕ) → parse_signed half (half + half) cell ≡ some m → m < half + half)
unfolding parse_signed
parse_signed_bounds half c s h all_digits =
    let digit : is_digit c ≡ true = (and_both (is_digit c) (all is_digit s) all_digits).0 in
    let no_minus : (c == b'-') ≡ false = ground arith in
    let no_plus : (c == b'+') ≡ false = ground arith in
    (
      rw (no_minus, no_plus) (digits_lem (half - 1) c s all_digits),
      ap (negative (half + half)) (digits_lem half c s all_digits)
          ∙ negative-if (half + half) (leb (value_from 0 (c ∷ s)) half) (value_from 0 (c ∷ s)),
      λ cell m e. parse_signed-lt half m cell h e,
    )

-- The decimal digits, `0` to `9`.
abbrev pub is_decimal : ℕ → Bool
is_decimal c = leb 48 c && leb c 57

-- What is read, if anything is, is below the bound.
abbrev pub IsBelow : ℕ → Option ℕ → Type 0
IsBelow bound none = Unit
IsBelow bound (some m) = m < bound

-- A function reads integers of w bits, of which `half` patterns, 2^(w-1), are not negative: the digits
-- as the number that they stand for, exactly when it is below `half`; digits behind a minus sign as
-- the two's complement of their number, exactly when it is `half` at most; and of any cell, nothing
-- but a pattern of w bits.
abbrev pub ReadsIntegers : ℕ → (Text → Option ℕ) → Text → Text → Type 0
ReadsIntegers half read number cell =
    (read number
      ≡ (if leb (value_from 0 number) (half - 1) then some (value_from 0 number) else none))
    × (read (b'-' ∷ number) ≡ (
        if leb (value_from 0 number) half
        then some ((half + half - value_from 0 number) % (half + half))
        else none))
    × IsBelow (half + half) (read cell)

signed_IsBelow :
    (half : ℕ) (cell : Text)
    → 0 < half
    → IsBelow (half + half) (parse_signed half (half + half) cell)
signed_IsBelow half cell h =
    of_option (parse_signed half (half + half) cell) λ m e. parse_signed-lt half m cell h e
  where
    of_option : (o : Option ℕ) → ((m : ℕ) → o ≡ some m → m < half + half) → IsBelow (half + half) o
    of_option none f = tt
    of_option (some m) f = f m refl

signed_ReadsIntegers :
    (half c : ℕ) (s cell : Text)
    → 0 < half
    → all is_decimal (c ∷ s) ≡ true
    → ReadsIntegers half (parse_signed half (half + half)) (c ∷ s) cell
signed_ReadsIntegers half c s cell h all_digits =
    let (plain, minus, _) = parse_signed_bounds half c s h all_digits in
    (plain, minus, signed_IsBelow half cell h)

-- A cell of decimal digits is read as an `i16`, an `i32` or an `i64` exactly when its number is below
-- 2^15, 2^31 or 2^63, and behind a minus sign exactly when it is that at most, as the two's complement
-- of 16, 32 or 64 bits; and whatever is read of any cell is a pattern of as many bits.
pub from_csv_cell_bounds :
    (c : ℕ) (s cell : Text)
    → all is_decimal (c ∷ s) ≡ true
    → ReadsIntegers 32768 i16_from_csv_cell (c ∷ s) cell
      × ReadsIntegers 2147483648 i32_from_csv_cell (c ∷ s) cell
      × ReadsIntegers 9223372036854775808 i64_from_csv_cell (c ∷ s) cell
unfolding i16_from_csv_cell i32_from_csv_cell i64_from_csv_cell
from_csv_cell_bounds c s cell h = (
  signed_ReadsIntegers 32768 c s cell (omega arith) h,
  signed_ReadsIntegers 2147483648 c s cell (omega arith) h,
  signed_ReadsIntegers 9223372036854775808 c s cell (omega arith) h,
)
