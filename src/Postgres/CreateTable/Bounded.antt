-- ===== src/Postgres/CreateTable/Bounded.antt =====
-- dbcrossbarlib/src/drivers/postgres_shared/table/create_table_sql.rs: how much the small rules of the grammar leave.
use dbcrossbar.Base.{
  subst, Option-cases, ℕ, suc, ◌≤◌, Bool, true, false, List, [], ◌∷◌, Option, none, some, Text,
  codes, length, arith, inl, inr, Bool-cases, ◌==◌, strip_prefix, ◌≡◌, ◌<◌,
}
use dbcrossbar.FromCsvCell.{digits, is_digit}
use dbcrossbar.BigQuery.Grammar.{is_name_start}
use dbcrossbar.Postgres.Quote.{double_quote}
use dbcrossbar.Peg.Repeats.{Within, star-le, star-stops}
use dbcrossbar.Peg.{Peg, literal, span}
use dbcrossbar.Peg.Leaves.{
  LeavesOr, left, refused, crashed, Leaves-orelse, Leaves-bind, span-le, literal-Leaves,
}
use dbcrossbar.BigQuery.Grammar.{is_name_start, is_blank}
use dbcrossbar.FromCsvCell.{is_digit, digits}
use dbcrossbar.Postgres.Quote.{double_quote}
use dbcrossbar.Postgres.SqlText.{
  skip_comment, comment, ws_item, ws_opt, or_fail, ws, lower, strip_ignoring_case, i, optional,
  then_ws, sign, is_bare_part, quoted_body, bare_identifier, quoted_identifier, identifier, expect,
  one_or_more, srid, phrase,
}

skip_comment-Within : (n : ℕ) (ts : Text) → length ts ≤ n → Within n (skip_comment ts)
unfolding skip_comment
skip_comment-Within n [] h = tt
skip_comment-Within n (c ∷ ts) h = elim (Bool-cases (c == 10)) [
  | inl same ↦ rw same (omega arith)
  | inr other ↦ rw other (skip_comment-Within n ts (omega arith))
]

comment-Within : (n : ℕ) (ts : Text) → length ts ≤ n → Within n (comment ts)
comment-Within n [] h = tt
comment-Within n (c ∷ ts) h = elim (Bool-cases (c == b'-')) [
  | inl same ↦ rw same (skip_comment-Within n ts (omega arith))
  | inr other ↦ rw other tt
]

ws_item-Within : (c : ℕ) (ts : Text) → Within (length ts) (ws_item (c ∷ ts))
unfolding ws_item
ws_item-Within c ts = elim (Bool-cases (is_blank c)) [
  | inl blank ↦ rw blank (omega arith)
  | inr other ↦ elim (Bool-cases (c == b'-')) [
    | inl dash ↦ rw (other, dash) (comment-Within (length ts) ts (omega arith))
    | inr sign ↦ rw (other, sign) tt
  ]
]

ws_item-lt : (ts r : Text) → ws_item ts ≡ some r → length r < length ts
ws_item-lt [] r h = unfold ws_item in absurd (cc)
ws_item-lt (c ∷ ts) r h =
    let within : length r ≤ length ts = subst (Within (length ts)) h (ws_item-Within c ts) in
    omega arith

pub ws_opt-le : (n : ℕ) (ts : Text) → length ts ≤ n → length (ws_opt ts) ≤ n
unfolding ws_opt
ws_opt-le n ts h = omega (arith, star-le ws_item ws_item-lt (length ts) ts)

-- `ws()?` stops only where neither a blank nor a comment stands: its fuel is enough.
pub ws_opt-stops : (ts : Text) → ws_item (ws_opt ts) ≡ none
unfolding ws_opt
ws_opt-stops ts = star-stops ws_item ws_item-lt (length ts) ts (omega arith)

-- A rule that does not run out of fuel, and leaves no more than it is given.
abbrev pub IsBounded : {A : Type 0} → (Text → Peg A) → Type 0
IsBounded rule = (n : ℕ) (ts : Text) → length ts ≤ n → LeavesOr (Unit {0}) n (rule ts)

or_fail-Leaves : (n : ℕ) (o : Option Text) → Within n o → LeavesOr (Unit {0}) n (or_fail o)
or_fail-Leaves n none w = refused
or_fail-Leaves n (some r) w = left tt (ws_opt r) (ws_opt-le n r w)

pub ws-IsBounded : IsBounded ws
unfolding ws
ws-IsBounded n ts h = elim (Option-cases (ws_item ts)) [
  | inl e ↦ rw e refused
  | inr (r, e) ↦ let less = ws_item-lt ts r e in rw e (or_fail-Leaves n (some r) (omega arith))
]

pub i-IsBounded : (p : Text) → IsBounded (i p)
unfolding i strip_ignoring_case
i-IsBounded [] n ts h = left tt ts h
i-IsBounded (a ∷ p) n [] h = refused
i-IsBounded (a ∷ p) n (c ∷ ts) h = elim (Bool-cases (lower c == lower a)) [
  | inl same ↦ rw same (i-IsBounded p n ts (omega arith))
  | inr other ↦ rw other refused
]

pub literal-IsBounded : (p : Text) → IsBounded (literal p)
unfolding literal strip_prefix
literal-IsBounded [] n ts h = left tt ts h
literal-IsBounded (a ∷ p) n [] h = refused
literal-IsBounded (a ∷ p) n (c ∷ ts) h = elim (Bool-cases (a == c)) [
  | inl same ↦ rw same (literal-IsBounded p n ts (omega arith))
  | inr other ↦ rw other refused
]

pub sign-IsBounded : (p : Text) → IsBounded (sign p)
sign-IsBounded p n ts h = literal-IsBounded p n (ws_opt ts) (ws_opt-le n ts h)

pub optional-IsBounded : (rule : Text → Peg (Unit {0})) → IsBounded rule → IsBounded (optional rule)
optional-IsBounded rule bounded n ts h = Leaves-orelse (bounded n ts h) (left tt ts h)

pub then_ws-Leaves :
    (n : ℕ) (p : Peg (Unit {0})) → LeavesOr (Unit {0}) n p → LeavesOr (Unit {0}) n (then_ws p)
then_ws-Leaves n p l = Leaves-bind l λ _ r le. ws-IsBounded n r le

pub bare_identifier-IsBounded : IsBounded bare_identifier
unfolding bare_identifier
bare_identifier-IsBounded n [] h = refused
bare_identifier-IsBounded n (c ∷ ts) h =
    let le = span-le is_bare_part ts in
    elim (Bool-cases (is_name_start c)) [
      | inl start ↦ rw start (left _ _ (omega arith))
      | inr other ↦ rw other refused
    ]

quoted_body-le : (m : Bool) (ts : Text) → length (quoted_body m ts).1 ≤ suc (length ts)
unfolding quoted_body
quoted_body-le false [] = omega arith
quoted_body-le true [] = omega arith
quoted_body-le false (c ∷ ts) = elim (Bool-cases (c == double_quote)) [
  | inl same ↦ let le = quoted_body-le true ts in rw same (omega arith)
  | inr other ↦ let le = quoted_body-le false ts in rw other (omega arith)
]
quoted_body-le true (c ∷ ts) = elim (Bool-cases (c == double_quote)) [
  | inl same ↦ let le = quoted_body-le false ts in rw same (omega arith)
  | inr other ↦ rw other (omega arith)
]

pub quoted_identifier-IsBounded : IsBounded quoted_identifier
unfolding quoted_identifier
quoted_identifier-IsBounded n ts h = literal-Leaves _ (codes "\"") ts λ r₁ le₁.
    let le = quoted_body-le false r₁ in
    Leaves-bind (literal-IsBounded (codes "\"") n (quoted_body false r₁).1 (omega arith))
      λ _ r₃ le₃. left _ r₃ le₃

pub identifier-IsBounded : IsBounded identifier
unfolding identifier
identifier-IsBounded n ts h =
    Leaves-orelse (bare_identifier-IsBounded n ts h) (quoted_identifier-IsBounded n ts h)

pub one_or_more-Leaves :
    (n : ℕ) (s : Text × Text) → length s.1 ≤ n → LeavesOr (Unit {0}) n (one_or_more s)
one_or_more-Leaves n ([], r) h = refused
one_or_more-Leaves n (c ∷ s, r) h = left _ r h

pub digits-Leaves :
    (n : ℕ) (ts : Text) → length ts ≤ n → LeavesOr (Unit {0}) n (one_or_more (span is_digit ts))
digits-Leaves n ts h =
    let le = span-le is_digit ts in one_or_more-Leaves n (span is_digit ts) (omega arith)

pub expect-Leaves :
    (n : ℕ) (o : Option ℕ) (r : Text) → length r ≤ n → LeavesOr (Unit {0}) n (expect o r)
expect-Leaves n none r h = crashed tt
expect-Leaves n (some m) r h = left m r h

pub srid-IsBounded : IsBounded srid
unfolding srid
srid-IsBounded n ts h =
    Leaves-bind (digits-Leaves n ts h) λ ds r le. expect-Leaves n (digits 4294967295 ds) r le

pub phrase-IsBounded : (ks : List Text) → IsBounded (phrase ks)
unfolding phrase
phrase-IsBounded [] n ts h = left tt ts h
phrase-IsBounded (k ∷ ks) n ts h =
    Leaves-bind (ws-IsBounded n ts h)
      λ _ r₁ le₁. Leaves-bind (i-IsBounded k n r₁ le₁) λ _ r₂ le₂. phrase-IsBounded ks n r₂ le₂
