-- ===== src/Tests/IfExists.antt =====
-- dbcrossbarlib/src/if_exists.rs on the examples of its tests.
use dbcrossbar.Base.{◌≡◌, refl, ◌↔◌, [], ◌∷◌, codes, ok, err, is_ok}
use dbcrossbar.IfExists.{IfExists, append, upsert, no_append, from_str, verify, no_keys}
use dbcrossbar.IfExists.RoundTrip.{IsWrittenAs, from_str_iff}
use dbcrossbar.IfExists.Features.{contains, is_ok-verify}

abbrev first_last : IfExists
first_last = upsert (codes "first" ∷ codes "last" ∷ [])

parse_test : from_str (codes "upsert-on:first,last") ≡ ok first_last
unfolding from_str
parse_test = refl

must_have_upsert_keys : from_str (codes "upsert-on:") ≡ err no_keys
unfolding from_str
must_have_upsert_keys = refl

from_str_iff_example :
    (from_str (codes "upsert-on:first,last") ≡ ok first_last)
    ↔ IsWrittenAs (codes "upsert-on:first,last") first_last
from_str_iff_example = from_str_iff (codes "upsert-on:first,last") first_last

is_ok-verify_example : is_ok (verify append no_append) ≡ contains no_append append
is_ok-verify_example = is_ok-verify append no_append
