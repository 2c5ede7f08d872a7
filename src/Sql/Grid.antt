-- ===== src/Sql/Grid.antt =====
-- roles.sql.go: the roles of an application and their permissions. The refusals of the database are
-- translated by mapRoleGridError.
use identity_hub.Base.{
  Bool, Bytes, List, [], bytes_eq, count_where, elem, eq_some, exists_where, false, find,
  if◌then◌else◌, none, not, select, some, update_where, ℕ, ◌&&◌, ◌++◌, ◌==◌, ◌∷◌,
}
use identity_hub.World.{
  Application, Permission, Query, RolePermission, RoleRow, UserRole, application_not_found,
  duplicate_role, err, no_rows, ok, role_assigned, storage, system_role,
}
use identity_hub.Sql.Users.{sort_names}

-- GetRoleGridApplication
unfoldable pub get_role_grid_application : ℕ → Query Application
get_role_grid_application id at t = elim (find (λ a. a.id == id) t.applications) [
  | none ↦ (err no_rows, t)
  | some a ↦ (ok a, t)
]

abbrev pub is_role_of : ℕ → ℕ → RoleRow → Bool
is_role_of app id r = r.id == id && eq_some r.application_id app

-- LockApplicationRole
unfoldable pub lock_application_role : ℕ → ℕ → Query ℕ
lock_application_role app id at t = elim (find (is_role_of app id) t.roles) [
  | none ↦ (err no_rows, t)
  | some r ↦ (ok r.id, t)
]

abbrev pub keys_with_id : ℕ → List Permission → List Bytes
keys_with_id id [] = []
keys_with_id id (p ∷ ps) = if p.id == id then p.key ∷ keys_with_id id ps else keys_with_id id ps

-- The keys that the join of role_permissions with permissions yields for a role.
abbrev pub role_keys : ℕ → List RolePermission → List Permission → List Bytes
role_keys role_id [] ps = []
role_keys role_id (rp ∷ rps) ps =
    if rp.role_id == role_id
    then keys_with_id rp.permission_id ps ++ role_keys role_id rps ps
    else role_keys role_id rps ps

-- GetApplicationRoleRow
pub record Counted : Type 0 where
  pub row : RoleRow
  pub permission_keys : List Bytes
  pub assigned_count : ℕ

abbrev pub is_assigned : ℕ → UserRole → Bool
is_assigned role_id ur = ur.role_id == role_id

-- GetApplicationRole
unfoldable pub get_application_role : ℕ → ℕ → Query Counted
unfolding sort_names
get_application_role app id at t = elim (find (is_role_of app id) t.roles) [
  | none ↦ (err no_rows, t)
  | some r ↦ (
    ok (record {
      row = r;
      permission_keys = sort_names (role_keys r.id t.role_permissions t.permissions);
      assigned_count = count_where (is_assigned r.id) t.user_roles;
    }),
    t,
  )
]

abbrev pub keys_among : ℕ → List Bytes → List Permission → List Bytes
keys_among app keys [] = []
keys_among app keys (p ∷ ps) =
    if p.application_id == app && elem p.key keys
    then p.key ∷ keys_among app keys ps
    else keys_among app keys ps

-- ValidateApplicationPermissionKeys
unfoldable pub validate_application_permission_keys : ℕ → List Bytes → Query (List Bytes)
unfolding sort_names
validate_application_permission_keys app keys at t =
    (ok (sort_names (keys_among app keys t.permissions)), t)

-- ActorHoldsApplicationRole
unfoldable pub actor_holds_application_role : ℕ → ℕ → Query Bool
actor_holds_application_role user_id role_id at t =
    (ok (exists_where (λ ur. ur.user_id == user_id && ur.role_id == role_id) t.user_roles), t)

abbrev pub new_role : ℕ → Bytes → Bytes → ℕ → RoleRow
new_role app name description id = record {
  id = id;
  name = name;
  description = description;
  application_id = some app;
  is_system = false;
}

-- CreateApplicationRole, with roles_name_key and roles_application_id_fkey.
unfoldable pub create_application_role : ℕ → Bytes → Bytes → ℕ → Query RoleRow
create_application_role app name description id at t =
    if exists_where (λ r. bytes_eq r.name name) t.roles
    then (err duplicate_role, t)
    else if not (exists_where (λ a. a.id == app) t.applications)
    then (err application_not_found, t)
    else (
      ok (new_role app name description id),
      record t { roles = new_role app name description id ∷ t.roles },
    )

-- DeleteApplicationRolePermissions
unfoldable pub delete_application_role_permissions : ℕ → Query (Unit {0})
delete_application_role_permissions role_id at t = (
  ok tt,
  record t { role_permissions = select (λ rp. not (rp.role_id == role_id)) t.role_permissions },
)

abbrev pub is_key_of : ℕ → Bytes → Permission → Bool
is_key_of app key p = p.application_id == app && bytes_eq p.key key

-- AddApplicationRolePermission: the number of rows; the pair is the primary key.
unfoldable pub add_application_role_permission : ℕ → ℕ → Bytes → Query ℕ
add_application_role_permission role_id app key at t =
    elim (find (is_key_of app key) t.permissions) [
      | none ↦ (ok 0, t)
      | some p ↦
          if exists_where (λ rp. rp.role_id == role_id && rp.permission_id == p.id)
            t.role_permissions
          then (err storage, t)
          else (
            ok 1,
            record t {
              role_permissions =
                  record { role_id = role_id; permission_id = p.id } ∷ t.role_permissions;
            },
          )
    ]

-- The trigger roles_reject_system_mutation.
abbrev pub is_protected : ℕ → RoleRow → Bool
is_protected id r = r.id == id && r.is_system

-- UpdateApplicationRoleDescription
unfoldable pub update_application_role_description : ℕ → Bytes → Query (Unit {0})
update_application_role_description id description at t =
    if exists_where (is_protected id) t.roles then (err system_role, t) else (
      ok tt,
      record t {
        roles =
            update_where (λ r. r.id == id) (λ r. record r { description = description }) t.roles;
      },
    )

-- DeleteApplicationRole, with user_roles_role_id_fkey; role_permissions cascades.
unfoldable pub delete_application_role : ℕ → Query (Unit {0})
delete_application_role id at t =
    if exists_where (is_protected id) t.roles
    then (err system_role, t)
    else if exists_where (is_assigned id) t.user_roles
    then (err role_assigned, t)
    else (
      ok tt,
      record t {
        roles = select (λ r. not (r.id == id)) t.roles;
        role_permissions = select (λ rp. not (rp.role_id == id)) t.role_permissions;
      },
    )
