-- ===== src/IfExists/RoundTrip.antt =====
-- What `from_str` reads is what `display` writes.
use dbcrossbar.Base.{
  ◌↔◌, subst, if-eq, strip_prefix-some, ℕ, ◌==◌, ==_iff, ◌≡◌, refl, true, false, Text, text_eq,
  text_eq→eq, strip_prefix, List, [], ◌∷◌, ◌++◌, any, codes, Result, ok, err, Bool-cases,
  Option-cases, inl, inr, arith, ok-injective, ap, sym, ◌∙◌, All,
}
use dbcrossbar.IfExists.{
  no_keys, empty_key, IfExists, error, append, overwrite, upsert, IfExistsError, upsert_prefix,
  comma, join, display, add_first, split, is_empty, has_no_keys, with_keys, prefixed, from_str,
}

-- A text without commas.
abbrev pub HasNoComma : Text → Type 0
HasNoComma s = any (λ c. c == comma) s ≡ false

-- A text and what it is split into.
join-add_first :
    (c : ℕ) (k : Text) (keys : List Text) → join (add_first c (k ∷ keys)) ≡ c ∷ join (k ∷ keys)
unfolding join
join-add_first c k [] = refl
join-add_first c k (next ∷ keys) = refl

-- The list of the parts has a first one.
split-cons : (s : Text) → (k : Text) × (keys : List Text) × (split s ≡ k ∷ keys)
unfolding split
split-cons [] = ([], [], refl)
split-cons (c ∷ s) =
    let (k, keys, e) = split-cons s in
    elim (Bool-cases (c == comma)) [
      | inl same ↦ ([], split s, rw same refl)
      | inr other ↦ (c ∷ k, keys, rw other (rw e))
    ]

join-split : (s : Text) → join (split s) ≡ s
unfolding split join
join-split [] = refl
join-split (c ∷ s) =
    let (k, keys, e) = split-cons s in
    let rest : join (k ∷ keys) ≡ s = ap join (sym e) ∙ join-split s in
    elim (Bool-cases (c == comma)) [
      | inl same ↦ rw same (rw e (rw ((==_iff c comma).0 same) (rw rest)))
      | inr other ↦ rw other (rw e (join-add_first c k keys ∙ ap (λ r. c ∷ r) rest))
    ]

split-HasNoComma : (k : Text) → HasNoComma k → split k ≡ k ∷ []
unfolding split
split-HasNoComma [] h = refl
split-HasNoComma (c ∷ k) h = elim (Bool-cases (c == comma)) [
  | inl same ↦ ground arith
  | inr other ↦ rw other (rw (split-HasNoComma k (ground arith)))
]

split-comma : (k s : Text) → HasNoComma k → split (k ++ comma ∷ s) ≡ k ∷ split s
unfolding split
split-comma [] s h = refl
split-comma (c ∷ k) s h = elim (Bool-cases (c == comma)) [
  | inl same ↦ ground arith
  | inr other ↦ rw other (rw (split-comma k s (ground arith)))
]

-- Keys that can be written: each has a character, and no comma.
abbrev pub IsKey : Text → Type 0
IsKey k = HasNoComma k × (is_empty k ≡ false)

-- A value whose keys, if it is an upsert, are at least one and can all be written.
abbrev pub IsWritable : IfExists → Type 0
IsWritable (upsert []) = ⊥
IsWritable (upsert (k ∷ keys)) = IsKey k × All IsKey keys
IsWritable error = Unit
IsWritable append = Unit
IsWritable overwrite = Unit

split-join :
    (k : Text) (keys : List Text) → IsKey k → All IsKey keys → split (join (k ∷ keys)) ≡ k ∷ keys
unfolding join
split-join k [] (h, _) _ = split-HasNoComma k h
split-join k (next ∷ keys) (h, _) (i, is) =
    split-comma k (join (next ∷ keys)) h ∙ ap (λ r. k ∷ r) (split-join next keys i is)

any-is_empty : (keys : List Text) → All IsKey keys → any is_empty keys ≡ false
any-is_empty [] _ = refl
any-is_empty (k ∷ keys) ((_, h), hs) = rw h (any-is_empty keys hs)

has_no_keys-IsKey : (k : Text) (keys : List Text) → IsKey k → has_no_keys (k ∷ keys) ≡ false
has_no_keys-IsKey k [] (_, h) = h
has_no_keys-IsKey k (_ ∷ _) _ = refl

with_keys-upsert :
    (s k : Text) (keys : List Text)
    → IsKey k
    → All IsKey keys
    → with_keys s (k ∷ keys) ≡ ok (upsert (k ∷ keys))
with_keys-upsert s k keys h hs =
    rw (has_no_keys-IsKey k keys h) (rw h.1 (rw (any-is_empty keys hs)))

from_str-upsert :
    (keys : Text)
    → from_str (upsert_prefix ++ keys) ≡ with_keys (upsert_prefix ++ keys) (split keys)
unfolding from_str text_eq strip_prefix
from_str-upsert keys = refl

from_str-display : (x : IfExists) → IsWritable x → from_str (display x) ≡ ok x
unfolding display from_str text_eq
from_str-display error _ = refl
from_str-display append _ = refl
from_str-display overwrite _ = refl
from_str-display (upsert []) h = elim h [ ]
from_str-display (upsert (k ∷ keys)) (h, hs) =
    from_str-upsert (join (k ∷ keys))
    ∙ ap (with_keys (upsert_prefix ++ join (k ∷ keys))) (split-join k keys h hs)
    ∙ with_keys-upsert (upsert_prefix ++ join (k ∷ keys)) k keys h hs

split-All : (s : Text) → All HasNoComma (split s)
unfolding split
split-All [] = (refl, tt)
split-All (c ∷ s) = elim (Bool-cases (c == comma)) [
  | inl same ↦ rw same (refl, split-All s)
  | inr other ↦
      let (k, keys, e) = split-cons s in
      let (h, hs) = subst (All HasNoComma) e (split-All s) in rw other (rw e (rw other h, hs))
]

All-IsKey : (keys : List Text) → All HasNoComma keys → any is_empty keys ≡ false → All IsKey keys
All-IsKey [] _ _ = tt
All-IsKey (k ∷ keys) (h, hs) e = elim (Bool-cases (is_empty k)) [
  | inl empty ↦ ground arith
  | inr full ↦ ((h, full), All-IsKey keys hs (ground arith))
]

upsert-IsWritable :
    (keys : List Text) → has_no_keys keys ≡ false → All IsKey keys → IsWritable (upsert keys)
upsert-IsWritable [] e _ = cc
upsert-IsWritable (k ∷ keys) _ h = h

-- A value that can be written, and is written as this text.
abbrev pub IsWrittenAs : Text → IfExists → Type 0
IsWrittenAs s x = (display x ≡ s) × IsWritable x

with_keys-IsWrittenAs :
    (s t : Text) {x : IfExists}
    → s ≡ upsert_prefix ++ t
    → with_keys s (split t) ≡ ok x
    → IsWrittenAs s x
unfolding display
with_keys-IsWrittenAs s t {x} q e = elim (if-eq (has_no_keys (split t)) (err no_keys) _ e) [
  | inl (_, f) ↦ cc
  | inr (has, f) ↦ elim (if-eq (any is_empty (split t)) (err (empty_key s)) _ f) [
    | inl (_, g) ↦ cc
    | inr (full, g) ↦ rw (← ok-injective g) (
      rw q (ap (λ r. upsert_prefix ++ r) (join-split t)),
      upsert-IsWritable (split t) has (All-IsKey (split t) (split-All t) full),
    )
  ]
]

prefixed-IsWrittenAs :
    (s : Text) {x : IfExists} → prefixed s (strip_prefix upsert_prefix s) ≡ ok x → IsWrittenAs s x
prefixed-IsWrittenAs s e = elim (Option-cases (strip_prefix upsert_prefix s)) [
  | inl missing ↦ ground arith
  | inr (t, q) ↦ with_keys-IsWrittenAs s t (strip_prefix-some upsert_prefix s q) (rw q at e)
]

word-IsWrittenAs :
    (s word : Text) (y : IfExists) {x : IfExists}
    → IsWrittenAs word y
    → text_eq s word ≡ true
    → ◌≡◌ {A = Result IfExistsError IfExists} (ok y) (ok x)
    → IsWrittenAs s x
word-IsWrittenAs s word y w same e = rw (text_eq→eq s word same) (rw (← ok-injective e) w)

from_str-IsWrittenAs : (s : Text) {x : IfExists} → from_str s ≡ ok x → IsWrittenAs s x
unfolding from_str display
from_str-IsWrittenAs s e = elim (if-eq (text_eq s (codes "error")) (ok error) _ e) [
  | inl (same, f) ↦ word-IsWrittenAs s (codes "error") error (refl, tt) same f
  | inr (_, f) ↦ elim (if-eq (text_eq s (codes "append")) (ok append) _ f) [
    | inl (same, g) ↦ word-IsWrittenAs s (codes "append") append (refl, tt) same g
    | inr (_, g) ↦ elim (if-eq (text_eq s (codes "overwrite")) (ok overwrite) _ g) [
      | inl (same, h) ↦ word-IsWrittenAs s (codes "overwrite") overwrite (refl, tt) same h
      | inr (_, h) ↦ prefixed-IsWrittenAs s h
    ]
  ]
]

-- A text is read as a value exactly when it is what is written of this value, and the value's keys,
-- if it is an upsert, are at least one, and each of them has a character and no comma.
pub from_str_iff : (s : Text) (x : IfExists) → (from_str s ≡ ok x) ↔ IsWrittenAs s x
from_str_iff s x = (
  from_str-IsWrittenAs s,
  λ (shown, h). subst (λ t. from_str t ≡ ok x) shown (from_str-display x h),
)
