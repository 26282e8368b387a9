-- ===== src/TypeScript/Locator.antt =====
-- dbcrossbarlib/src/drivers/dbcrossbar_ts/mod.rs: the locator `dbcrossbar-ts:path#fragment`.
use dbcrossbar.Base.{
  ℕ, Text, codes, [], ◌∷◌, ◌++◌, Bool, true, false, Option, none, some, strip_prefix, Result, ok,
  err, if◌then◌else◌, ◌≡◌, refl, ap, Bool-cases, inl, inr, ◌==◌, arith, all, not, ◌∙◌, sym, ==_iff,
}
use dbcrossbar.PathOrStdio.{
  PathOrStdio, LocatorError, wrong_scheme, no_fragment, bad_encoding, IsNamed,
}
use dbcrossbar.PathOrStdio as Paths
use dbcrossbar.Schema.{Table}
use dbcrossbar.TypeScript.Grammar.{parse}
use dbcrossbar.TypeScript.Convert.{Outcome, ◌>>=◌, lift, definition_to_table}

pub record DbcrossbarTsLocator : Type 0 where
  pub path : PathOrStdio
  pub fragment : Text

abbrev pub scheme : Text
scheme = codes "dbcrossbar-ts:"

-- `str::replace` of a character.
unfoldable pub replace : ℕ → Text → Text → Text
replace c by [] = []
replace c by (d ∷ s) = (if d == c then by else d ∷ []) ++ replace c by s

unfoldable pub encode : Text → Text
unfolding replace
encode s = replace b'#' (codes "%23") (replace b'%' (codes "%25") s)

unfoldable pub display : DbcrossbarTsLocator → Text
unfolding encode
display l = scheme ++ (encode (Paths.display l.path) ++ (b'#' ∷ encode l.fragment))

abbrev pub add_first : ℕ → Option (Text × Text) → Option (Text × Text)
add_first c none = none
add_first c (some (a, b)) = some (c ∷ a, b)

-- `splitn(2, '#')`, where it gives two parts.
unfoldable pub split_once : Text → Option (Text × Text)
split_once [] = none
split_once (c ∷ s) =
    let parts = split_once s in if c == b'#' then some ([], s) else add_first c parts

-- The path and the fragment, decoded.
abbrev pub of_parts : Option Text → Option Text → Result LocatorError DbcrossbarTsLocator
of_parts (some path) (some fragment) =
    ok (record { path = Paths.from_str path; fragment = fragment })
of_parts (some path) none = err bad_encoding
of_parts none _ = err bad_encoding

-- `percent_decode_str` followed by `decode_utf8`, of the percent_encoding crate, is a parameter;
-- its `none` stands for text that is not UTF-8.
abbrev pub of_split :
    (Text → Option Text) → Option (Text × Text) → Result LocatorError DbcrossbarTsLocator
of_split percent_decode (some (path, fragment)) =
    of_parts (percent_decode path) (percent_decode fragment)
of_split percent_decode none = err no_fragment

abbrev pub of_rest : (Text → Option Text) → Option Text → Result LocatorError DbcrossbarTsLocator
of_rest percent_decode (some rest) = of_split percent_decode (split_once rest)
of_rest percent_decode none = err wrong_scheme

unfoldable pub from_str : (Text → Option Text) → Text → Result LocatorError DbcrossbarTsLocator
unfolding strip_prefix split_once
from_str percent_decode s = of_rest percent_decode (strip_prefix scheme s)

-- `schema_helper`, on the text that its file holds.
unfoldable pub schema_helper : ℕ → Text → DbcrossbarTsLocator → Outcome Table
unfolding parse definition_to_table
schema_helper fuel contents source =
    lift (parse contents) >>= λ ds. definition_to_table fuel ds source.fragment

-- What the crate documents: a character that is not `%` stands for itself, and `%` with two
-- hexadecimal digits for the character of that code.
pub record PercentDecodeLaws (percent_decode : Text → Option Text) : Type 0 where
  pub at_end : percent_decode [] ≡ some []
  pub plain :
      (c : ℕ) (s t : Text)
      → (c == b'%') ≡ false
      → percent_decode s ≡ some t
      → percent_decode (c ∷ s) ≡ some (c ∷ t)
  pub percent :
      (s t : Text) → percent_decode s ≡ some t → percent_decode (codes "%25" ++ s) ≡ some (b'%' ∷ t)
  pub hash :
      (s t : Text) → percent_decode s ≡ some t → percent_decode (codes "%23" ++ s) ≡ some (b'#' ∷ t)

-- One character, encoded.
abbrev encode_char : ℕ → Text
encode_char c = if c == b'%' then codes "%25" else if c == b'#' then codes "%23" else c ∷ []

encode-cons : (c : ℕ) (s : Text) → encode (c ∷ s) ≡ encode_char c ++ encode s
unfolding encode
encode-cons c s = elim (Bool-cases (c == b'%')) [
  | inl same ↦ rw same
  | inr other ↦ elim (Bool-cases (c == b'#')) [
    | inl hash ↦ rw (other, hash)
    | inr plain ↦ rw (other, plain)
  ]
]

abbrev is_no_hash : ℕ → Bool
is_no_hash c = not (c == b'#')

split_once-append :
    (s t : Text) → all is_no_hash s ≡ true → split_once (s ++ (b'#' ∷ t)) ≡ some (s, t)
unfolding split_once
split_once-append [] t h = refl
split_once-append (c ∷ s) t h = ground (arith, split_once-append s t)

no_hash-encode : (s : Text) → all is_no_hash (encode s) ≡ true
no_hash-encode [] = unfold encode in refl
no_hash-encode (c ∷ s) = rw (encode-cons c s) (elim (Bool-cases (c == b'%')) [
  | inl same ↦ rw same (no_hash-encode s)
  | inr other ↦ elim (Bool-cases (c == b'#')) [
    | inl hash ↦ rw (other, hash) (no_hash-encode s)
    | inr plain ↦ rw (other, plain, plain) (no_hash-encode s)
  ]
])

module _ (percent_decode : Text → Option Text) (laws : PercentDecodeLaws percent_decode) where
  decode-encode : (s : Text) → percent_decode (encode s) ≡ some s
  decode-encode [] = unfold encode in laws.at_end
  decode-encode (c ∷ s) = rw (encode-cons c s) (elim (Bool-cases (c == b'%')) [
    | inl same ↦ rw same (
        laws.percent (encode s) s (decode-encode s)
        ∙ ap (λ d. some (d ∷ s)) (sym ((==_iff c b'%').0 same)))
    | inr other ↦ elim (Bool-cases (c == b'#')) [
      | inl is_hash ↦
          rw (other, is_hash)
            (laws.hash (encode s) s (decode-encode s)
              ∙ ap (λ d. some (d ∷ s)) (sym ((==_iff c b'#').0 is_hash)))
      | inr is_plain ↦ rw (other, is_plain) (laws.plain c (encode s) s other (decode-encode s))
    ]
  ])

  -- A locator that is displayed reads back as it was, with `#` and `%` anywhere in its path and in
  -- its fragment, if its file is not named `-`.
  pub from_str-display_locator :
      (l : DbcrossbarTsLocator) → IsNamed l.path → from_str percent_decode (display l) ≡ ok l
  unfolding from_str display
  from_str-display_locator l named =
      let path = Paths.display l.path in
      rw (split_once-append (encode path) (encode l.fragment) (no_hash-encode path)) (
        rw (decode-encode path, decode-encode l.fragment)
          (ap (λ p. ok (record { path = p; fragment = l.fragment }))
            (Paths.from_str-display l.path named)))
