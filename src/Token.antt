-- ===== src/Token.antt =====
-- backend/internal/auth/token/token.go: the claims of the access tokens that the Hub signs.
pub mod Reads
use identity_hub.Base.{
  Bytes, List, Option, [], if◌then◌else◌, is_empty, minute, none, some, ℕ, ◌*◌, ◌+◌,
}
use identity_hub.World.{Action, Error, External, fail, now, pure, read_random, signing, ◌>>=◌}

abbrev pub access_token_ttl : ℕ
access_token_ttl = 15 * minute

-- AccessTokenExpiresIn, in seconds.
abbrev pub access_token_expires_in : ℕ
access_token_expires_in = 900

pub record Service : Type 0 where
  pub ext : External
  pub issuer : Bytes
  pub audience : Bytes

unfoldable pub or_fail : Error → Option Bytes → Action Bytes
or_fail e none = fail e
or_fail e (some raw) = pure raw

-- issueForAudience; `permissions = none` leaves the claim out, as permissionsPresent = false does.
unfoldable pub issue_for_audience_with :
    Service → Bytes → List Bytes → Option (List Bytes) → Bytes → Bytes → Action Bytes
issue_for_audience_with s subject roles permissions session_id audience =
    if is_empty subject then fail signing else do
      raw ← read_random
      at ← now
      or_fail signing (
          s.ext.sign (record {
            roles = roles;
            permissions = permissions;
            session_id = session_id;
            issuer = s.issuer;
            subject = subject;
            audience = audience;
            expires_at = at + access_token_ttl;
            issued_at = at;
            jti = s.ext.hex raw;
          }))

-- IssueForSession
unfoldable pub issue_for_session : Service → Bytes → List Bytes → Bytes → Action Bytes
unfolding issue_for_audience_with
issue_for_session s subject roles session_id =
    if is_empty session_id
    then fail signing
    else issue_for_audience_with s subject roles none session_id s.audience

-- IssueForAudience
unfoldable pub issue_for_audience : Service → Bytes → List Bytes → List Bytes → Bytes → Action Bytes
unfolding issue_for_audience_with
issue_for_audience s subject roles permissions audience =
    if is_empty audience
    then fail signing
    else issue_for_audience_with s subject roles (some permissions) [] audience
