-- ===== src/OAuth/Tests.antt =====
-- oauth.go: a user with a role of the application asks for a code.
use identity_hub.Base.{[], bytes_eq, codes, minute, refl, some, true, ◌*◌, ◌+◌, ◌∷◌, ◌≡◌}
use identity_hub.World.{World, ok, ◌>>=◌}
use identity_hub.Sql.Audit.{insert_audit_event}
use identity_hub.Sql.Codes.{create_authorization_code, get_oauth_authorization_access}
use identity_hub.OAuth.{
  AuthorizeInput, AuthorizeResult, Client, Service, authorize, authorize_client, check_access,
  client_of, is_well_formed, trusted_client, valid_pkce_challenge, validate_authorize_input,
}
use identity_hub.OAuth.Grants.{Allowed, authorize-Allowed}
use identity_hub.Fixtures.{ext, tables, world}

abbrev client : Client
client = record {
  id = codes "contabilidad";
  redirect_uri = codes "https://c.test/cb";
  origin = codes "https://c.test";
}

abbrev service : Service
service = record { ext = ext; clients = client ∷ [] }

abbrev input : AuthorizeInput
input = record {
  client_id = codes "contabilidad";
  redirect_uri = codes "https://c.test/cb";
  response_type = codes "code";
  state = codes "x";
  code_challenge = codes "E9Melhoa2OwvFrEMTJguCHaoeK1t8URWbuGJSstw-cM";
  code_challenge_method = codes "S256";
}

abbrev start : World
start = world tables

abbrev result : AuthorizeResult
result = record { code = 7001 ∷ []; expires_at = 1001 * minute + 2 }

abbrev after : World
after = (authorize service 2 input start).1

authorizes : authorize service 2 input start ≡ (ok result, after)
unfolding authorize ◌>>=◌ authorize_client validate_authorize_input trusted_client
    valid_pkce_challenge check_access get_oauth_authorization_access create_authorization_code
    insert_audit_event
authorizes = refl

authorize-Allowed_example :
    (c : Client) × (client_of service (codes "contabilidad") ≡ some c)
    × (bytes_eq (codes "https://c.test/cb") c.redirect_uri ≡ true)
    × (is_well_formed input ≡ true)
    × Allowed 2 c.id start.tables
authorize-Allowed_example = authorize-Allowed service 2 input start after result authorizes
