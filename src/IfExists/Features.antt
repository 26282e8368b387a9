-- ===== src/IfExists/Features.antt =====
-- What `verify` lets through, and how files are opened.
use dbcrossbar.Base.{◌≡◌, refl, Bool, true, false, is_ok}
use dbcrossbar.IfExists.{
  IfExists, error, append, overwrite, upsert, IfExistsFeatures, no_append, allowed, verify,
  to_async_open_options_no_append,
}

-- The set has the feature that a value asks for.
unfoldable pub contains : IfExistsFeatures → IfExists → Bool
contains features error = features.has_error
contains features append = features.has_append
contains features overwrite = features.has_overwrite
contains features (upsert _) = features.has_upsert

is_ok-allowed : (has : Bool) (x : IfExists) → is_ok (allowed has x) ≡ has
is_ok-allowed true x = refl
is_ok-allowed false x = refl

-- A value passes `verify` exactly when the driver has the feature for it.
pub is_ok-verify :
    (x : IfExists) (features : IfExistsFeatures) → is_ok (verify x features) ≡ contains features x
unfolding verify contains
is_ok-verify error features = is_ok-allowed features.has_error error
is_ok-verify append features = is_ok-allowed features.has_append append
is_ok-verify overwrite features = is_ok-allowed features.has_overwrite overwrite
is_ok-verify (upsert keys) features = is_ok-allowed features.has_upsert (upsert keys)

-- Opening a file does not fail on a value that `verify` lets through with the features `no_append`,
-- and fails on any other.
pub is_ok-to_async_open_options_no_append :
    (x : IfExists) → is_ok (to_async_open_options_no_append x) ≡ is_ok (verify x no_append)
unfolding to_async_open_options_no_append verify
is_ok-to_async_open_options_no_append error = refl
is_ok-to_async_open_options_no_append append = refl
is_ok-to_async_open_options_no_append overwrite = refl
is_ok-to_async_open_options_no_append (upsert _) = refl
