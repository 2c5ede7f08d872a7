-- ===== src/World/Failure.antt =====
-- The errors that the services tell apart, and the pair `(value, error)` of Go as a result.
use identity_hub.Base.{Bool, false, inl, inr, refl, true, ◌≡◌, ◌⊎◌}

-- The sentinel errors of the packages below backend/internal/auth. `storage` is any failure of the
-- database, `no_rows` pgx.ErrNoRows, `delivery` a failed publication, `randomness` a failed read of
-- the random source. Wrapping by `%w` keeps the sentinel, so it is not written.
pub data Error : Type 0 where
  storage no_rows delivery randomness signing unavailable : Error
  invalid_credentials account_locked ip_rate_limited bad_hash : Error
  challenge_invalid code_invalid resend_too_soon issuance_limited delivery_unavailable : Error
  invalid_refresh_token refresh_reuse session_not_found hub_session_invalid : Error
  invalid_client invalid_request code_unusable code_reused : Error
  organization_mismatch no_application_role : Error
  user_not_found self_disable self_role_assignment last_active_admin : Error
  invalid_role base_role_required cross_organization_role : Error
  key_not_found key_unauthenticated insufficient_scope : Error
  application_not_found role_not_found invalid_role_name invalid_permission : Error
  invalid_description empty_update self_permission_change self_role_delete : Error
  role_assigned system_role duplicate_role : Error
  email_exists not_pending already_bootstrapped invalid_status : Error
  token_invalid token_required invalid_input : Error
  -- errors.Join of a domain error with the failure to publish it.
  joined : Error → Error

pub data Result (A : Type 0) : Type 0 where
  ok : A → Result A
  err : Error → Result A

-- `errors.Is(err, target)`, with its result as a branch: pgx.ErrNoRows becomes the given error.
abbrev pub no_rows_as : Error → Error → Error
no_rows_as target no_rows = target
no_rows_as target e = e

abbrev pub is_ok : {A : Type 0} → Result A → Bool
is_ok (ok a) = true
is_ok (err e) = false

pub Result-cases :
    {A : Type 0} (r : Result A) → ((a : A) × (r ≡ ok a)) ⊎ ((e : Error) × (r ≡ err e))
Result-cases (ok a) = inl (a, refl)
Result-cases (err e) = inr (e, refl)
