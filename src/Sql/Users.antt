-- ===== src/Sql/Users.antt =====
-- users.sql.go: the account rows.
use identity_hub.Base.{
  Bool, Bytes, List, [], bytes_eq, exists_where, false, find, if◌then◌else◌, ltb, none, select,
  some, true, update_where, ℕ, ◌&&◌, ◌==◌, ◌||◌, ◌∷◌,
}
use identity_hub.World.{Query, RoleRow, User, UserRole, active, err, locked, no_rows, ok, status_eq}

abbrev pub is_active : User → Bool
is_active u = status_eq u.status active

-- JOIN users … WHERE users.status = 'active'
abbrev pub is_active_user : ℕ → List User → Bool
is_active_user user_id us = exists_where (λ u. u.id == user_id && is_active u) us

-- GetLoginUserByEmail; citext compares the folded addresses.
unfoldable pub get_login_user_by_email : (Bytes → Bytes) → Bytes → Query User
get_login_user_by_email fold email at t =
    elim (find (λ u. bytes_eq (fold u.email) (fold email)) t.users) [
      | none ↦ (err no_rows, t)
      | some u ↦ (ok u, t)
    ]

-- GetUserByID
unfoldable pub get_user_by_id : ℕ → Query User
get_user_by_id user_id at t = elim (find (λ u. u.id == user_id) t.users) [
  | none ↦ (err no_rows, t)
  | some u ↦ (ok u, t)
]

-- LockLoginUser
unfoldable pub lock_login_user : ℕ → ℕ → Query (Unit {0})
lock_login_user user_id until at t = (
  ok tt,
  record t {
    users =
        update_where (λ u. u.id == user_id && is_active u)
          (λ u. record u { status = locked; locked_until = some until }) t.users;
  },
)

-- UnlockLoginUser
unfoldable pub unlock_login_user : ℕ → Query (Unit {0})
unlock_login_user user_id at t = (
  ok tt,
  record t {
    users =
        update_where (λ u. u.id == user_id && status_eq u.status locked)
          (λ u. record u { status = active; locked_until = none }) t.users;
  },
)

-- UpdatePasswordHash
unfoldable pub update_password_hash : ℕ → Bytes → Query (Unit {0})
update_password_hash user_id hash at t = (
  ok tt,
  record t {
    users = update_where (λ u. u.id == user_id) (λ u. record u { password_hash = hash }) t.users;
  },
)

-- UpdateLastLogin
unfoldable pub update_last_login : ℕ → Query (Unit {0})
update_last_login user_id at t = (
  ok tt,
  record t {
    users = update_where (λ u. u.id == user_id) (λ u. record u { last_login_at = some at }) t.users;
  },
)

abbrev pub add_names : List RoleRow → List Bytes → List Bytes
add_names [] names = names
add_names (r ∷ rs) names = r.name ∷ add_names rs names

-- The names of the roles that a user holds, in the order of the join.
abbrev pub role_names : ℕ → List UserRole → List RoleRow → List Bytes
role_names user_id [] rs = []
role_names user_id (ur ∷ urs) rs =
    if ur.user_id == user_id
    then add_names (select (λ r. r.id == ur.role_id) rs) (role_names user_id urs rs)
    else role_names user_id urs rs

-- ORDER BY name ASC, as an insertion sort by the order of the bytes.
abbrev pub bytes_le : Bytes → Bytes → Bool
bytes_le [] ys = true
bytes_le (x ∷ xs) [] = false
bytes_le (x ∷ xs) (y ∷ ys) = ltb x y || x == y && bytes_le xs ys

unfoldable pub insert_name : Bytes → List Bytes → List Bytes
insert_name n [] = n ∷ []
insert_name n (m ∷ ms) = if bytes_le n m then n ∷ m ∷ ms else m ∷ insert_name n ms

unfoldable pub sort_names : List Bytes → List Bytes
unfolding insert_name
sort_names [] = []
sort_names (n ∷ ns) = insert_name n (sort_names ns)

-- ListRolesForUser
unfoldable pub list_roles_for_user : ℕ → Query (List Bytes)
unfolding sort_names
list_roles_for_user user_id at t = (ok (sort_names (role_names user_id t.user_roles t.roles)), t)
