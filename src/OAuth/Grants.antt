-- ===== src/OAuth/Grants.antt =====
-- oauth.go, Authorize: the conditions of an authorization code.
use identity_hub.Base.{
  Bytes, Option-cases, arith, bytes_eq, find, inl, inr, some, true, ℕ, ◌==◌, ◌≡◌, ◌≢◌,
}
use identity_hub.World.{Application, Error, Result-cases, Tables, User, World, ok, ◌>>=◌}
use identity_hub.Sql.Audit.{insert_audit_event}
use identity_hub.Sql.Codes.{Access, get_oauth_authorization_access, holds_role_of}
use identity_hub.OAuth.{
  AuthorizeInput, AuthorizeResult, Client, Service, authorize, authorize_client, check_access,
  client_of, is_well_formed, reject_access, trusted_client, validate_authorize_input,
}

access-ok :
    (user_id : ℕ) (client_id : Bytes) (at : ℕ) (t : Tables) (a : Access)
    → (get_oauth_authorization_access user_id client_id at t).0 ≡ ok a
    → (u : User) × (app : Application) × (find (λ q. q.id == user_id) t.users ≡ some u)
      × (find (λ q. bytes_eq q.client_id client_id) t.applications ≡ some app)
      × (a.user_organization_id ≡ u.organization_id)
      × (a.application_organization_id ≡ app.organization_id)
      × (a.has_application_role ≡ holds_role_of u.id app.id t.user_roles t.roles)
unfolding get_oauth_authorization_access
access-ok user_id client_id at t a h =
    elim (Option-cases (find (λ (q : User). q.id == user_id) t.users)) [
      | inl e ↦ ground arith
      | inr (u, e) ↦
          elim (Option-cases
            (find (λ (q : Application). bytes_eq q.client_id client_id) t.applications)) [
              | inl f ↦ ground arith
              | inr (app, f) ↦ (u, app, e, f, ground arith, ground arith, ground arith)
            ]
    ]

-- The user belongs to the application's organization and holds a role of it.
pub record Allowed (user_id : ℕ) (client_id : Bytes) (t : Tables) : Type 0 where
  pub account : User
  pub app : Application
  pub account_stored : find (λ q. q.id == user_id) t.users ≡ some account
  pub app_stored : find (λ q. bytes_eq q.client_id client_id) t.applications ≡ some app
  pub same_organization : account.organization_id ≡ app.organization_id
  pub has_role : holds_role_of account.id app.id t.user_roles t.roles ≡ true

reject_access-fails :
    (user_id : ℕ) (reason : Bytes) (e : Error) (w : World) (u : Unit {0})
    → (reject_access user_id reason e w).0 ≢ ok u
unfolding ◌>>=◌ insert_audit_event
reject_access-fails user_id reason e w u h = ground arith

check_access-ok :
    (user_id : ℕ) (c : Client) (w w' : World) (u : Unit {0})
    → check_access user_id c w ≡ (ok u, w')
    → Allowed user_id c.id w.tables
unfolding check_access ◌>>=◌ insert_audit_event
check_access-ok user_id c w w' u h =
    elim (Result-cases
      (get_oauth_authorization_access user_id c.id (w.env.db_clock w.tick) w.tables).0) [
        | inr (x, e) ↦ ground arith
        | inl (a, e) ↦
            let (q, app, stored, app_stored, org, app_org, role) =
              access-ok user_id c.id _ w.tables a e in
            record {
              account = q;
              app = app;
              account_stored = stored;
              app_stored = app_stored;
              same_organization = ground arith;
              has_role = ground arith;
            }
      ]

validate-ok :
    (s : Service) (input : AuthorizeInput) (c : Client)
    → validate_authorize_input s input ≡ ok c
    → (is_well_formed input ≡ true)
      × (client_of s input.client_id ≡ some c)
      × (bytes_eq input.redirect_uri c.redirect_uri ≡ true)
unfolding validate_authorize_input trusted_client
validate-ok s input c h = elim (Option-cases (client_of s input.client_id)) [
  | inl e ↦ ground arith
  | inr (d, e) ↦ (ground arith, ground arith, ground arith)
]

-- When authorize returns a code, the request is well formed with an S256 challenge, its client is
-- registered with the redirect URI of the request, and the user is stored, belongs to the organization
-- of the client's application and holds a role of it.
pub authorize-Allowed :
    (s : Service) (user_id : ℕ) (input : AuthorizeInput) (w w' : World) (result : AuthorizeResult)
    → authorize s user_id input w ≡ (ok result, w')
    → (c : Client) × (client_of s input.client_id ≡ some c)
      × (bytes_eq input.redirect_uri c.redirect_uri ≡ true)
      × (is_well_formed input ≡ true)
      × Allowed user_id c.id w.tables
unfolding authorize authorize_client ◌>>=◌
authorize-Allowed s user_id input w w' result h =
    elim (Result-cases (validate_authorize_input s input)) [
      | inr (x, e) ↦ ground arith
      | inl (c, e) ↦
          let (formed, registered, redirect) = validate-ok s input c e in
          elim (Result-cases (check_access user_id c w).0) [
            | inr (x, f) ↦ ground arith
            | inl (u, f) ↦ (
              c,
              registered,
              redirect,
              formed,
              check_access-ok user_id c w (check_access user_id c w).1 u (ground arith),
            )
          ]
    ]
