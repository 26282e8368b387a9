-- ===== src/IfExists.antt =====
-- dbcrossbarlib/src/if_exists.rs: what to do if the destination already exists.
pub mod RoundTrip
pub mod Features
use dbcrossbar.Base.{
  ℕ, ◌==◌, Bool, true, false, not, Option, none, some, Text, text_eq, strip_prefix, List, [], ◌∷◌,
  ◌++◌, any, codes, Result, ok, err, if◌then◌else◌,
}
use dbcrossbar.Separator
use dbcrossbar.Separator.{Separator, new}

pub data IfExists : Type 0 where
  error append overwrite : IfExists
  upsert : List Text → IfExists

-- A set of `IfExistsFeatures`, by what it contains.
pub record IfExistsFeatures : Type 0 where
  pub has_error : Bool
  pub has_append : Bool
  pub has_overwrite : Bool
  pub has_upsert : Bool

pub data IfExistsError : Type 0 where
  unsupported : IfExists → IfExistsError
  no_keys append_not_supported upsert_not_supported : IfExistsError
  empty_key unknown_value : Text → IfExistsError

abbrev pub no_append : IfExistsFeatures
no_append = record {
  has_error = true;
  has_append = false;
  has_overwrite = true;
  has_upsert = false;
}

unfoldable pub is_upsert : IfExists → Bool
is_upsert (upsert _) = true
is_upsert error = false
is_upsert append = false
is_upsert overwrite = false

-- The options of `tokio::fs::OpenOptions` that are set.
pub record OpenOptions : Type 0 where
  pub write : Bool
  pub create_new : Bool
  pub create : Bool
  pub truncate : Bool

unfoldable pub to_async_open_options_no_append : IfExists → Result IfExistsError OpenOptions
to_async_open_options_no_append error =
    ok (record { write = true; create_new = true; create = false; truncate = false })
to_async_open_options_no_append overwrite =
    ok (record { write = true; create_new = false; create = true; truncate = true })
to_async_open_options_no_append append = err append_not_supported
to_async_open_options_no_append (upsert _) = err upsert_not_supported

abbrev pub allowed : Bool → IfExists → Result {0, 0} IfExistsError Unit
allowed contains self = if not contains then err (unsupported self) else ok tt

unfoldable pub verify : IfExists → IfExistsFeatures → Result {0, 0} IfExistsError Unit
verify error features = allowed features.has_error error
verify overwrite features = allowed features.has_overwrite overwrite
verify append features = allowed features.has_append append
verify (upsert keys) features = allowed features.has_upsert (upsert keys)

abbrev pub upsert_prefix : Text
upsert_prefix = codes "upsert-on:"

abbrev pub comma : ℕ
comma = b','

-- `merge_keys.iter().join(",")`.
unfoldable pub join : List Text → Text
join [] = []
join (key ∷ []) = key
join (key ∷ next ∷ keys) = key ++ comma ∷ join (next ∷ keys)

unfoldable pub display : IfExists → Text
unfolding join
display error = codes "error"
display append = codes "append"
display overwrite = codes "overwrite"
display (upsert merge_keys) = upsert_prefix ++ join merge_keys

abbrev pub add_first : ℕ → List Text → List Text
add_first c [] = []
add_first c (part ∷ parts) = (c ∷ part) ∷ parts

-- `split(',')`.
unfoldable pub split : Text → List Text
split [] = [] ∷ []
split (c ∷ s) = let parts = split s in if c == comma then [] ∷ parts else add_first c parts

abbrev pub is_empty : Text → Bool
is_empty [] = true
is_empty (_ ∷ _) = false

-- The test of no key, or of one that is empty.
abbrev pub has_no_keys : List Text → Bool
has_no_keys [] = true
has_no_keys (key ∷ []) = is_empty key
has_no_keys (_ ∷ _ ∷ _) = false

abbrev pub with_keys : Text → List Text → Result IfExistsError IfExists
with_keys s merge_keys =
    if has_no_keys merge_keys
    then err no_keys
    else (if any is_empty merge_keys then err (empty_key s) else ok (upsert merge_keys))

abbrev pub prefixed : Text → Option Text → Result IfExistsError IfExists
prefixed s (some keys) = with_keys s (split keys)
prefixed s none = err (unknown_value s)

unfoldable pub from_str : Text → Result IfExistsError IfExists
unfolding text_eq split strip_prefix
from_str s =
    if text_eq s (codes "error")
    then ok error
    else (if text_eq s (codes "append")
        then ok append
        else (if text_eq s (codes "overwrite")
            then ok overwrite
            else prefixed s (strip_prefix upsert_prefix s)))

-- `write_flag`, with its separator.
abbrev pub write_flag : Separator → Bool → IfExists → Separator × Text
write_flag sep contains value =
    if contains
    then (let (sep, printed) = Separator.display sep in
        (sep, printed ++ codes "--if-exists=" ++ display value))
    else (sep, [])

-- The `Display` of a set of features.
unfoldable pub display_features : IfExistsFeatures → Text
unfolding display
display_features features =
    let (sep, a) = write_flag (new (codes " ")) features.has_error error in
    let (sep, b) = write_flag sep features.has_append append in
    let (sep, c) = write_flag sep features.has_overwrite overwrite in
    let (sep, d) = write_flag sep features.has_upsert (upsert (codes "col" ∷ [])) in
    a ++ b ++ c ++ d
