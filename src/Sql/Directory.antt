-- ===== src/Sql/Directory.antt =====
-- users.sql.go and roles.sql.go: what the administrators of accounts read and write.
use identity_hub.Base.{
  Bool, Bytes, List, Option, [], bytes_eq, codes, count_where, elem, exists_where, find,
  if◌then◌else◌, none, not, select, some, true, update_where, ℕ, ◌&&◌, ◌+◌, ◌==◌, ◌||◌, ◌∷◌,
}
use identity_hub.World.{
  Application, Query, RoleRow, Tables, User, UserRole, UserStatus, cross_organization_role, err,
  no_rows, ok, storage,
}
use identity_hub.Sql.Users.{is_active, role_names, sort_names}

-- The rows that join a user with a role named 'admin'.
unfoldable pub admin_rows : List UserRole → List RoleRow → ℕ → ℕ
admin_rows urs rs user_id =
    count_where (λ (n : Bytes). bytes_eq n (codes "admin")) (role_names user_id urs rs)

abbrev pub sum_active : (ℕ → ℕ) → List User → ℕ
sum_active rows [] = 0
sum_active rows (u ∷ us) = (if is_active u then rows u.id else 0) + sum_active rows us

-- LockActiveAdminUsers: the number of rows.
unfoldable pub lock_active_admin_users : Query ℕ
lock_active_admin_users at t = (ok (sum_active (admin_rows t.user_roles t.roles) t.users), t)

-- GetUserByIDForUpdate
unfoldable pub get_user_by_id_for_update : ℕ → Query User
get_user_by_id_for_update user_id at t = elim (find (λ u. u.id == user_id) t.users) [
  | none ↦ (err no_rows, t)
  | some u ↦ (ok u, t)
]

abbrev pub set_status : UserStatus → User → User
set_status status u = record u { status = status; locked_until = none }

-- UpdateAdminUserStatus
unfoldable pub update_admin_user_status : ℕ → UserStatus → Query User
update_admin_user_status user_id status at t = elim (find (λ u. u.id == user_id) t.users) [
  | none ↦ (err no_rows, t)
  | some u ↦ (
    ok (set_status status u),
    record t { users = update_where (λ q. q.id == user_id) (set_status status) t.users },
  )
]

abbrev pub names_among : List Bytes → List RoleRow → List Bytes
names_among names [] = []
names_among names (r ∷ rs) =
    if elem r.name names then r.name ∷ names_among names rs else names_among names rs

-- ValidateRoleNames
unfoldable pub validate_role_names : List Bytes → Query (List Bytes)
unfolding sort_names
validate_role_names names at t = (ok (sort_names (names_among names t.roles)), t)

-- DeleteUserRoles
unfoldable pub delete_user_roles : ℕ → Query (Unit {0})
delete_user_roles user_id at t =
    (ok tt, record t { user_roles = select (λ ur. not (ur.user_id == user_id)) t.user_roles })

-- The organization of a role's application; none for a directory role.
abbrev pub role_organization : List Application → RoleRow → Option ℕ
role_organization apps r = elim r.application_id [
  | none ↦ none
  | some app ↦ elim (find (λ (a : Application). a.id == app) apps) [
    | none ↦ none
    | some a ↦ some a.organization_id
  ]
]

-- The trigger enforce_user_role_organization lets the row pass.
unfoldable pub is_grantable : ℕ → RoleRow → Tables → Bool
is_grantable user_id r t = elim (role_organization t.applications r) [
  | none ↦ true
  | some org ↦ exists_where (λ u. u.id == user_id && u.organization_id == org) t.users
]

abbrev pub has_user : ℕ → Tables → Bool
has_user user_id t = exists_where (λ u. u.id == user_id) t.users

abbrev pub holds_role : ℕ → ℕ → UserRole → Bool
holds_role user_id role_id ur = ur.user_id == user_id && ur.role_id == role_id

-- AddUserRole: the number of rows. mapOrganizationError is applied to the trigger's exception; the
-- primary key and the foreign keys are the other refusals.
unfoldable pub add_user_role : ℕ → Bytes → ℕ → Query ℕ
unfolding is_grantable
add_user_role user_id name granted_by at t = elim (find (λ r. bytes_eq r.name name) t.roles) [
  | none ↦ (ok 0, t)
  | some r ↦
      if not (is_grantable user_id r t)
      then (err cross_organization_role, t)
      else if exists_where (holds_role user_id r.id) t.user_roles
          || not (has_user user_id t && has_user granted_by t)
      then (err storage, t)
      else (
        ok 1,
        record t {
          user_roles =
              record { user_id = user_id; role_id = r.id; granted_by = some granted_by }
              ∷ t.user_roles;
        },
      )
]
