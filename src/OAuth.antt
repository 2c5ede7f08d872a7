-- ===== src/OAuth.antt =====
-- backend/internal/auth/oauth/oauth.go: the authorization step, over the repository of
-- backend/internal/store/oauth.go. It runs no transaction.
pub mod Exchange
pub mod Grants
mod Tests
use identity_hub.Sql.Sessions.{get_hub_session_user}
use identity_hub.Base.{
  Bool, Bytes, List, Option, [], bytes_eq, codes, exists_where, find, if◌then◌else◌, is_empty, leb,
  length, ltb, minute, none, not, some, true, ℕ, ◌&&◌, ◌+◌, ◌==◌, ◌||◌, ◌∷◌,
}
use identity_hub.World.{
  Action, AuditAction, Error, External, Result, authorization_code_issued, autocommit, done, err,
  fail, hub_session_invalid, invalid_client, invalid_request, map_error, new_uuid,
  no_application_role, no_rows_as, now, oauth_authorization_rejected, ok, organization_mismatch,
  pure, read_random, ◌>>=◌, ◌>>◌,
}
use identity_hub.Sql.Audit.{AuditEvent, insert_audit_event}
use identity_hub.Sql.Codes.{NewCode, create_authorization_code, get_oauth_authorization_access}

-- AuthorizationCodeTTL
abbrev pub authorization_code_ttl : ℕ
authorization_code_ttl = minute

pub record Client : Type 0 where
  pub id : Bytes
  pub redirect_uri : Bytes
  pub origin : Bytes

-- `clients` is the map of New, whose keys ValidateClients has found distinct.
pub record Service : Type 0 where
  pub ext : External
  pub clients : List Client

pub record AuthorizeInput : Type 0 where
  pub client_id : Bytes
  pub redirect_uri : Bytes
  pub response_type : Bytes
  pub state : Bytes
  pub code_challenge : Bytes
  pub code_challenge_method : Bytes

pub record AuthorizeResult : Type 0 where
  pub code : Bytes
  pub expires_at : ℕ

-- An ASCII letter or digit.
abbrev pub is_alphanumeric : ℕ → Bool
is_alphanumeric c = leb b'A' c && leb c b'Z' || leb b'a' c && leb c b'z' || leb b'0' c && leb c b'9'

abbrev pub is_challenge_char : ℕ → Bool
is_challenge_char c = is_alphanumeric c || c == b'-' || c == b'_'

abbrev pub is_verifier_char : ℕ → Bool
is_verifier_char c = is_alphanumeric c || c == b'-' || c == b'.' || c == b'_' || c == b'~'

abbrev pub all_chars : (ℕ → Bool) → Bytes → Bool
all_chars p [] = true
all_chars p (c ∷ cs) = p c && all_chars p cs

-- validPKCE, with the alphabet as a test; a byte outside ASCII belongs to no alphabet.
abbrev pub valid_pkce : Bytes → ℕ → ℕ → (ℕ → Bool) → Bool
valid_pkce value min_length max_length alphabet =
    not (ltb (length value) min_length || ltb max_length (length value)) && all_chars alphabet value

-- validPKCEChallenge
pub valid_pkce_challenge : Bytes → Bool
valid_pkce_challenge value = valid_pkce value 43 128 is_challenge_char

pub valid_pkce_verifier : Bytes → Bool
valid_pkce_verifier value = valid_pkce value 43 128 is_verifier_char

-- s.clients[id]
abbrev pub client_of : Service → Bytes → Option Client
client_of s id = find (λ c. bytes_eq c.id id) s.clients

abbrev pub with_redirect : Bytes → Option Client → Option Client
with_redirect redirect_uri none = none
with_redirect redirect_uri (some c) = if bytes_eq redirect_uri c.redirect_uri then some c else none

pub trusted_client : Service → AuthorizeInput → Option Client
trusted_client s input = with_redirect input.redirect_uri (client_of s input.client_id)

-- The tests of ValidateAuthorizeInput on the request itself.
abbrev pub is_well_formed : AuthorizeInput → Bool
is_well_formed input =
    bytes_eq input.response_type (codes "code")
    && not (is_empty input.state)
    && valid_pkce_challenge input.code_challenge
    && bytes_eq input.code_challenge_method (codes "S256")

-- ValidateAuthorizeInput, with the client that Authorize looks up next.
pub validate_authorize_input : Service → AuthorizeInput → Result Client
validate_authorize_input s input = elim (trusted_client s input) [
  | none ↦ err invalid_client
  | some c ↦ if is_well_formed input then ok c else err invalid_request
]

-- insertOAuthAuditEvent; the metadata's client_id is left out.
abbrev pub audit_event : ℕ → AuditAction → Option Bytes → AuditEvent
audit_event user_id action reason = record {
  actor = some user_id;
  action = action;
  reason = reason;
  resource_id = none;
  ip = none;
  user_agent = none;
}

-- The refusal of checkAccess: audited, then the RejectedError.
abbrev pub reject_access : ℕ → Bytes → Error → Action (Unit {0})
reject_access user_id reason e =
    autocommit (insert_audit_event (audit_event user_id oauth_authorization_rejected (some reason)))
    >> fail e

-- checkAccess
pub check_access : ℕ → Client → Action (Unit {0})
check_access user_id c = do
  a ← autocommit (get_oauth_authorization_access user_id c.id)
  if not (a.user_organization_id == a.application_organization_id)
      then reject_access user_id (codes "organization_mismatch") organization_mismatch
      else if not a.has_application_role
      then reject_access user_id (codes "no_application_role") no_application_role
      else done

-- CreateAuthorizationCode of the repository.
abbrev pub store_code : NewCode → Action (Unit {0})
store_code new = do
  count ← autocommit (create_authorization_code new)
  if count == 1 then done else fail invalid_client

-- Authorize after the validation.
pub authorize_client : Service → ℕ → Client → AuthorizeInput → Action AuthorizeResult
authorize_client s user_id c input = do
  check_access user_id c
  raw ← read_random
  at ← now
  id ← new_uuid
  store_code (record {
    id = id;
    user_id = user_id;
    client_id = c.id;
    redirect_uri = c.redirect_uri;
    code_hash = s.ext.sha256 raw;
    code_challenge = input.code_challenge;
    expires_at = at + authorization_code_ttl;
  })
  autocommit (insert_audit_event (audit_event user_id authorization_code_issued none))
  pure (record { code = s.ext.encode raw; expires_at = at + authorization_code_ttl })

-- Authorize
pub authorize : Service → ℕ → AuthorizeInput → Action AuthorizeResult
authorize s user_id input = elim (validate_authorize_input s input) [
  | err e ↦ fail e
  | ok c ↦ authorize_client s user_id c input
]

-- AllowsOrigin, with `origins` of New as the clients' origins.
pub allows_origin : Service → Bytes → Bool
allows_origin s origin =
    not (is_empty origin) && exists_where (λ c. bytes_eq c.origin origin) s.clients

-- GetHubSessionUser of the repository, for the hash of the cookie.
pub hub_session_user : Bytes → Action ℕ
hub_session_user hash =
    map_error (no_rows_as hub_session_invalid) (autocommit (get_hub_session_user hash))
