-- ===== src/Sql/Codes.antt =====
-- users.sql.go and roles.sql.go: authorization codes, and what an application may know of a user.
use identity_hub.Base.{
  Bool, Bytes, List, Option, [], bytes_eq, count_where, elem, eq_some, exists_where, find,
  if◌then◌else◌, is_some, ltb, none, not, select, some, update_where, ℕ, ◌&&◌, ◌==◌, ◌||◌, ◌∷◌,
}
use identity_hub.World.{
  Application, CodeRow, Permission, Query, Result, RolePermission, RoleRow, Tables, User, UserRole,
  err, no_rows, now, ok, storage,
}
use identity_hub.Sql.Users.{role_names, sort_names}

abbrev pub is_unused : CodeRow → Bool
is_unused c = not (is_some c.used_at)

-- The primary key and UNIQUE (code_hash).
abbrev pub collides_code : CodeRow → CodeRow → Bool
collides_code new c = c.id == new.id || bytes_eq c.code_hash new.code_hash

pub record NewCode : Type 0 where
  pub id : ℕ
  pub user_id : ℕ
  pub client_id : Bytes
  pub redirect_uri : Bytes
  pub code_hash : Bytes
  pub code_challenge : Bytes
  pub expires_at : ℕ

abbrev pub code_row : NewCode → Application → CodeRow
code_row new a = record {
  id = new.id;
  user_id = new.user_id;
  application_id = a.id;
  code_hash = new.code_hash;
  redirect_uri = new.redirect_uri;
  code_challenge = new.code_challenge;
  expires_at = new.expires_at;
  used_at = none;
}

-- CreateAuthorizationCode: the number of rows; client_id is unique, and user_id a foreign key.
unfoldable pub create_authorization_code : NewCode → Query ℕ
create_authorization_code new at t =
    elim (find (λ a. bytes_eq a.client_id new.client_id && bytes_eq a.redirect_uri new.redirect_uri)
      t.applications) [
        | none ↦ (ok 0, t)
        | some a ↦
            if exists_where (collides_code (code_row new a)) t.authorization_codes
              || not (exists_where (λ u. u.id == new.user_id) t.users)
            then (err storage, t)
            else (ok 1, record t { authorization_codes = code_row new a ∷ t.authorization_codes })
      ]

-- GetAuthorizationCodeForUpdateRow
pub record Locked : Type 0 where
  pub code : CodeRow
  pub client_id : Bytes

abbrev pub with_client : CodeRow → Option Application → Result Locked
with_client c none = err no_rows
with_client c (some a) = ok (record { code = c; client_id = a.client_id })

-- GetAuthorizationCodeForUpdate; code_hash is unique, so that the row is found by it first.
unfoldable pub get_authorization_code_for_update : Bytes → ℕ → Query Locked
get_authorization_code_for_update hash now at t =
    elim (find (λ c. bytes_eq c.code_hash hash) t.authorization_codes) [
      | none ↦ (err no_rows, t)
      | some c ↦
          if is_unused c && ltb now c.expires_at
          then (with_client c (find (λ a. a.id == c.application_id) t.applications), t)
          else (err no_rows, t)
    ]

-- GetUsedAuthorizationCodeOwner
unfoldable pub get_used_authorization_code_owner : Bytes → Query ℕ
get_used_authorization_code_owner hash at t =
    elim (find (λ c. bytes_eq c.code_hash hash && is_some c.used_at) t.authorization_codes) [
      | none ↦ (err no_rows, t)
      | some c ↦ (ok c.user_id, t)
    ]

abbrev pub is_unused_id : ℕ → CodeRow → Bool
is_unused_id id c = c.id == id && is_unused c

abbrev pub mark_used : ℕ → CodeRow → CodeRow
mark_used at c = record c { used_at = some at }

-- MarkAuthorizationCodeUsed: the number of rows.
unfoldable pub mark_authorization_code_used : ℕ → ℕ → Query ℕ
mark_authorization_code_used id used_at at t = (
  ok (count_where (is_unused_id id) t.authorization_codes),
  record t {
    authorization_codes = update_where (is_unused_id id) (mark_used used_at) t.authorization_codes;
  },
)

-- The application of a role has a given client.
abbrev pub serves : Bytes → List Application → RoleRow → Bool
serves client_id apps r =
    exists_where (λ a. bytes_eq a.client_id client_id && eq_some r.application_id a.id) apps

-- ListApplicationRolesForUser
unfoldable pub list_application_roles_for_user : ℕ → Bytes → Query (List Bytes)
unfolding sort_names
list_application_roles_for_user user_id client_id at t = (
  ok (
      sort_names
        (role_names user_id t.user_roles (select (serves client_id t.applications) t.roles))),
  t,
)

abbrev pub prepend_key : Option Permission → List Bytes → List Bytes
prepend_key none keys = keys
prepend_key (some p) keys = if elem p.key keys then keys else p.key ∷ keys

abbrev pub key_of : RolePermission → List Permission → Option RoleRow → Option Permission
key_of rp ps none = none
key_of rp ps (some r) =
    find (λ p. p.id == rp.permission_id && eq_some r.application_id p.application_id) ps

-- The distinct keys of the roles with one of the names.
abbrev pub role_keys :
    List Bytes
    → Bytes
    → List Application
    → List RoleRow
    → List Permission
    → List RolePermission
    → List Bytes
role_keys names client_id apps rs ps [] = []
role_keys names client_id apps rs ps (rp ∷ rps) =
    prepend_key
      (key_of rp ps
        (find (λ r. r.id == rp.role_id && elem r.name names && serves client_id apps r) rs))
      (role_keys names client_id apps rs ps rps)

-- ListPermissionKeysForRolesAndApplication
unfoldable pub list_permission_keys : List Bytes → Bytes → Query (List Bytes)
unfolding sort_names
list_permission_keys names client_id at t = (
  ok (
      sort_names
        (role_keys names client_id t.applications t.roles t.permissions t.role_permissions)),
  t,
)

pub record Access : Type 0 where
  pub user_organization_id : ℕ
  pub application_organization_id : ℕ
  pub has_application_role : Bool

abbrev pub holds_role_of : ℕ → ℕ → List UserRole → List RoleRow → Bool
holds_role_of user_id app urs rs =
    exists_where
      (λ ur.
        ur.user_id == user_id
        && exists_where (λ r. r.id == ur.role_id && eq_some r.application_id app) rs)
      urs

abbrev pub access : Tables → Option User → Option Application → Result Access
access t none a = err no_rows
access t (some u) none = err no_rows
access t (some u) (some a) = ok (record {
  user_organization_id = u.organization_id;
  application_organization_id = a.organization_id;
  has_application_role = holds_role_of u.id a.id t.user_roles t.roles;
})

-- GetOAuthAuthorizationAccess
unfoldable pub get_oauth_authorization_access : ℕ → Bytes → Query Access
get_oauth_authorization_access user_id client_id at t = (
  access t (find (λ u. u.id == user_id) t.users)
      (find (λ a. bytes_eq a.client_id client_id) t.applications),
  t,
)
