-- ===== src/PathOrStdio.antt =====
-- dbcrossbarlib/src/path_or_stdio.rs: a file or the standard streams, as a locator names them.
use dbcrossbar.Base.{
  Text, codes, ◌++◌, false, Option, none, some, text_eq, strip_prefix, strip_prefix-append, Result,
  ok, err, if◌then◌else◌, ◌≡◌, refl, ap,
}

-- A path stands as its text, which `Path::display` gives back.
pub data PathOrStdio : Type 0 where
  file : Text → PathOrStdio
  stdio : PathOrStdio

pub data LocatorError : Type 0 where
  wrong_scheme no_fragment bad_encoding : LocatorError

unfoldable pub display : PathOrStdio → Text
display stdio = codes "-"
display (file p) = p

unfoldable pub from_str : Text → PathOrStdio
unfolding text_eq
from_str s = if text_eq s (codes "-") then stdio else file s

abbrev pub after_scheme : Option Text → Result LocatorError PathOrStdio
after_scheme (some rest) = ok (from_str rest)
after_scheme none = err wrong_scheme

unfoldable pub from_str_locator_helper : Text → Text → Result LocatorError PathOrStdio
unfolding strip_prefix from_str
from_str_locator_helper scheme locator = after_scheme (strip_prefix scheme locator)

unfoldable pub fmt_locator_helper : Text → PathOrStdio → Text
unfolding display
fmt_locator_helper scheme p = scheme ++ display p

-- What `-` stands for is the standard stream, and no file.
abbrev pub IsNamed : PathOrStdio → Type 0
IsNamed (file p) = text_eq p (codes "-") ≡ false
IsNamed stdio = Unit

pub from_str-display : (p : PathOrStdio) → IsNamed p → from_str (display p) ≡ p
unfolding from_str display
from_str-display (file p) h = rw h
from_str-display stdio h = unfold text_eq in refl

-- A locator of a file or of the standard streams reads back as it was, whatever its scheme; the one
-- exception is a file named `-`.
pub from_str_locator_helper-fmt :
    (scheme : Text) (p : PathOrStdio)
    → IsNamed p
    → from_str_locator_helper scheme (fmt_locator_helper scheme p) ≡ ok p
unfolding from_str_locator_helper fmt_locator_helper
from_str_locator_helper-fmt scheme p h =
    rw (strip_prefix-append scheme (display p)) (ap ok (from_str-display p h))
