-- ===== src/Driver/Errors.antt =====
-- The errors of driver.go, with those that storage.go makes of them.
use aws_ecommerce_k8s.Base.{ℕ, Bool, true, false, ◌++◌, ◌≡◌, refl, ◌⊎◌, inl, inr}
use aws_ecommerce_k8s.Base.Bytes.{Bytes, bytes, contains}
use aws_ecommerce_k8s.Base.Int.{pos}
use aws_ecommerce_k8s.Base.Decimal.{itoa}

-- `foreign` is an error with its text, of the service behind a driver among others; `wrapped` is
-- what `fmt.Errorf` makes of a text and `%w`. A `StorageDriverError` is
-- made in one place only, around ErrNoDeployedReleases.
pub data Error : Type 0 where
  release_not_found release_exists invalid_key : Error
  err_no_deployed_releases : Bytes → Error
  no_revision : Bytes → Error
  deletion_errors : ℕ → Error → Error
  foreign : Bytes → Error
  wrapped : Bytes → Error → Error

-- `%q`, for names that hold nothing to escape.
abbrev pub quote : Bytes → Bytes
quote s = bytes "\"" ++ (s ++ bytes "\"")

-- `Error()`
unfoldable pub error_text : Error → Bytes
unfolding itoa
error_text release_not_found = bytes "release: not found"
error_text release_exists = bytes "release: already exists"
error_text invalid_key = bytes "release: invalid key"
error_text (err_no_deployed_releases name) = quote name ++ bytes " has no deployed releases"
error_text (no_revision name) = bytes "no revision for release " ++ quote name
error_text (deletion_errors n first) =
    bytes "encountered "
    ++ (itoa (pos n) ++ (bytes " deletion errors. First is: " ++ error_text first))
error_text (foreign msg) = msg
error_text (wrapped context e) = context ++ error_text e

-- `errors.Is(err, driver.ErrReleaseNotFound)`: looks through what wraps an error.
unfoldable pub is_release_not_found : Error → Bool
is_release_not_found release_not_found = true
is_release_not_found (deletion_errors n first) = is_release_not_found first
is_release_not_found (wrapped context e) = is_release_not_found e
is_release_not_found _ = false

-- `errors.Is(err, driver.ErrNoDeployedReleases)`
unfoldable pub is_no_deployed_releases : Error → Bool
is_no_deployed_releases (err_no_deployed_releases name) = true
is_no_deployed_releases (deletion_errors n first) = is_no_deployed_releases first
is_no_deployed_releases (wrapped context e) = is_no_deployed_releases e
is_no_deployed_releases _ = false

pub data Result {ℓ} (A : Type ℓ) : Type ℓ where
  ok : A → Result A
  err : Error → Result A

not_found_text : contains (error_text release_not_found) (bytes "not found") ≡ true
unfolding contains error_text
not_found_text = refl

pub Result-cases {ℓ} :
    {A : Type ℓ} (r : Result A) → ((a : A) × (r ≡ ok a)) ⊎ ((e : Error) × (r ≡ err e))
Result-cases (ok a) = inl (a, refl)
Result-cases (err e) = inr (e, refl)

abbrev pub is_ok : {A : Type 0} → Result A → Bool
is_ok (ok a) = true
is_ok (err e) = false
