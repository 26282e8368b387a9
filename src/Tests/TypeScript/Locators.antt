-- ===== src/Tests/TypeScript/Locators.antt =====
-- Locators at concrete paths, with a decoder of percent signs that is a function.
use dbcrossbar.Base.{
  ℕ, Text, codes, List, [], ◌∷◌, ◌++◌, Bool, true, false, ◌&&◌, Option, none, some, ok, ◌≡◌, refl,
  ap, ◌==◌, if◌then◌else◌, arith,
}
use dbcrossbar.PathOrStdio.{file}
use dbcrossbar.TypeScript.Locator.{
  DbcrossbarTsLocator, display, from_str, PercentDecodeLaws, from_str-display_locator,
}

cons : ℕ → Option Text → Option Text
cons c none = none
cons c (some t) = some (c ∷ t)

decoder : Text → Option Text
unfolding cons
decoder [] = some []
decoder (c ∷ []) = some (c ∷ [])
decoder (c ∷ d ∷ []) = some (c ∷ d ∷ [])
decoder (c ∷ d ∷ e ∷ s) =
    let short = decoder s in
    let long = decoder (d ∷ e ∷ s) in
    if c == b'%' && (d == b'2' && e == b'5')
    then cons b'%' short
    else if c == b'%' && (d == b'2' && e == b'3')
    then cons b'#' short
    else cons c long

decoder-plain :
    (c : ℕ) (s t : Text) → (c == b'%') ≡ false → decoder s ≡ some t → decoder (c ∷ s) ≡ some (c ∷ t)
unfolding decoder
decoder-plain c [] t p h = ground arith
decoder-plain c (d ∷ []) t p h = ground arith
decoder-plain c (d ∷ e ∷ s) t p h = rw p (ap (cons c) h)

decoder-laws : PercentDecodeLaws decoder
unfolding decoder
decoder-laws = record {
  at_end = refl;
  plain = decoder-plain;
  percent = λ s t h. ap (cons b'%') h;
  hash = λ s t h. ap (cons b'#') h;
}

abbrev locator : DbcrossbarTsLocator
locator = record { path = file (codes "a#b%.ts"); fragment = codes "Order" }

from_str-display_locator_example : from_str decoder (display locator) ≡ ok locator
unfolding dbcrossbar.Base.text_eq
from_str-display_locator_example = from_str-display_locator decoder decoder-laws locator refl

locator_text : display locator ≡ codes "dbcrossbar-ts:a%23b%25.ts#Order"
unfolding display dbcrossbar.PathOrStdio.display
locator_text = refl
