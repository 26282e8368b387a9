-- ===== src/Csv/Name.antt =====
-- dbcrossbarlib/src/csv_stream.rs: `csv_stream_name`.
pub mod Laws
use dbcrossbar.Base.{
  ℕ, ◌==◌, Bool, true, false, Option, none, some, Text, [], ◌∷◌, any, text_eq, strip_prefix, Result,
  ok, err, if◌then◌else◌,
}

pub data NameError : Type 0 where
  not_within : NameError

abbrev pub slash : ℕ
slash = b'/'

abbrev pub dot : ℕ
dot = b'.'

abbrev pub has_slash : Text → Bool
has_slash s = any (λ c. c == slash) s

-- `rsplitn(2, '/').next()`: what is after the last slash, if there is one.
unfoldable pub basename : Text → Text
basename [] = []
basename (c ∷ s) =
    let rest = basename s in if has_slash s then rest else (if c == slash then s else c ∷ s)

-- `splitn(2, '.').next()`: what is before the first dot, if there is one.
unfoldable pub before_dot : Text → Text
before_dot [] = []
before_dot (c ∷ s) = let rest = before_dot s in if c == dot then [] else c ∷ rest

-- `ends_with('/')`.
unfoldable pub ends_with_slash : Text → Bool
ends_with_slash [] = false
ends_with_slash (c ∷ []) = c == slash
ends_with_slash (c ∷ d ∷ s) = ends_with_slash (d ∷ s)

-- What follows the base path, which is no directory by its own text.
abbrev pub below : Text → Result NameError Text
below [] = err not_within
below (c ∷ rest) = if c == slash then ok rest else err not_within

abbrev pub relative : Text → Option Text → Result NameError Text
relative base_path (some rest) = if ends_with_slash base_path then ok rest else below rest
relative base_path none = err not_within

abbrev pub basename_or_relative : Text → Text → Result NameError Text
basename_or_relative base_path file_path =
    if text_eq file_path base_path
    then ok (basename file_path)
    else relative base_path (strip_prefix base_path file_path)

abbrev pub strip_extension : Result NameError Text → Result NameError Text
strip_extension (ok name) = ok (before_dot name)
strip_extension (err e) = err e

unfoldable pub csv_stream_name : Text → Text → Result NameError Text
unfolding basename before_dot ends_with_slash text_eq strip_prefix
csv_stream_name base_path file_path = strip_extension (basename_or_relative base_path file_path)
