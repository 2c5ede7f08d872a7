-- ===== src/Admin/Load.antt =====
-- admin.go: lockAndLoadTarget and validateRequestedRoles.
use identity_hub.Base.{
  Bytes, List, Option, Option-cases, ap, arith, codes, elem, find, inl, inr, is_some, none, some,
  true, ℕ, ◌==◌, ◌∙◌, ◌≡◌,
}
use identity_hub.World.{
  Tables, User, World, bind-ok, map_error, no_rows_as, ok, pure, pure-ok, statement, statement-ok,
  user_not_found, ◌>>=◌,
}
use identity_hub.Sql.Users.{list_roles_for_user, sort_names}
use identity_hub.Sql.Directory.{
  admin_rows, get_user_by_id_for_update, lock_active_admin_users, sum_active, validate_role_names,
}
use identity_hub.Admin.{
  Account, Loaded, get_user_for_update, lock_and_load_target, or_none, validate_requested_roles,
}
use identity_hub.Admin.Grants.{held}

listed :
    (user_id : ℕ) (w w' : World) (names : List Bytes)
    → statement (list_roles_for_user user_id) w ≡ (ok names, w')
    → (names ≡ sort_names (held user_id w.tables)) × (w'.tables ≡ w.tables)
unfolding list_roles_for_user
listed user_id w w' names h =
    let (ran, at) = statement-ok (list_roles_for_user user_id) w w' names h in
    (ground (arith, ran), ground (arith, ran))

counted :
    (w w' : World) (n : ℕ)
    → statement lock_active_admin_users w ≡ (ok n, w')
    → (n ≡ sum_active (admin_rows w.tables.user_roles w.tables.roles) w.tables.users)
      × (w'.tables ≡ w.tables)
unfolding lock_active_admin_users
counted w w' n h =
    let (ran, at) = statement-ok lock_active_admin_users w w' n h in
    (ground (arith, ran), ground (arith, ran))

row_found :
    (user_id : ℕ) (w w' : World) (row : User)
    → map_error (no_rows_as user_not_found) (statement (get_user_by_id_for_update user_id)) w
      ≡ (ok row, w')
    → (find (λ (q : User). q.id == user_id) w.tables.users ≡ some row) × (w'.tables ≡ w.tables)
unfolding get_user_by_id_for_update ◌>>=◌
row_found user_id w w' row h =
    elim (Option-cases (find (λ (q : User). q.id == user_id) w.tables.users)) [
      | inl e ↦ ground arith
      | inr (q, e) ↦ (ground arith, ground arith)
    ]

abbrev account_of : User → List Bytes → Account
account_of row roles = record { row = row; roles = roles }

target_found :
    (user_id : ℕ) (w w' : World) (a : Account)
    → get_user_for_update user_id w ≡ (ok a, w')
    → (find (λ (q : User). q.id == user_id) w.tables.users ≡ some a.row) × (w'.tables ≡ w.tables)
unfolding get_user_for_update
target_found user_id w w' a h =
    let (row, w₁, got, rest) =
      bind-ok
        (map_error (no_rows_as user_not_found) (statement (get_user_by_id_for_update user_id)))
        (λ row. statement (list_roles_for_user user_id) >>= λ roles. pure (account_of row roles)) w
        w' a h in
    let (found, same) = row_found user_id w w₁ row got in
    let (names, w₂, list, end) =
      bind-ok (statement (list_roles_for_user user_id)) (λ roles. pure (account_of row roles)) w₁ w'
        a rest in
    let (n, same') = listed user_id w₁ w₂ names list in
    let (e, t) = pure-ok (account_of row names) w₂ w' a end in
    (found ∙ ap {B = Option User} (λ (x : Account). some x.row) e, t ∙ same' ∙ same)

-- What lockAndLoadTarget hands on.
pub record Seen (user_id : ℕ) (t : Tables) (l : Loaded) : Type 0 where
  pub admins : l.active_admins ≡ sum_active (admin_rows t.user_roles t.roles) t.users
  pub found : find (λ (q : User). q.id == user_id) t.users ≡ some l.target.row
  pub names : l.current_roles ≡ sort_names (held user_id t)

abbrev loaded_of : ℕ → Account → List Bytes → Loaded
loaded_of n target roles = record { active_admins = n; target = target; current_roles = roles }

pub lock_and_load_target-Seen :
    (user_id : ℕ) (w w' : World) (l : Loaded)
    → lock_and_load_target user_id w ≡ (ok l, w')
    → Seen user_id w.tables l × (w'.tables ≡ w.tables)
unfolding lock_and_load_target
lock_and_load_target-Seen user_id w w' l h =
    let (n, w₁, counting, rest) =
      bind-ok (statement lock_active_admin_users)
        (λ n. get_user_for_update user_id >>= λ target.
          statement (list_roles_for_user user_id) >>= λ roles. pure (loaded_of n target roles))
        w w' l h in
    let (target, w₂, finding, rest') =
      bind-ok (get_user_for_update user_id)
        (λ target.
          statement (list_roles_for_user user_id) >>= λ roles. pure (loaded_of n target roles))
        w₁ w' l rest in
    let (names, w₃, listing, end) =
      bind-ok (statement (list_roles_for_user user_id)) (λ roles. pure (loaded_of n target roles))
        w₂ w' l rest' in
    let (count, t₁) = counted w w₁ n counting in
    let (found, t₂) = target_found user_id w₁ w₂ target finding in
    let (list, t₃) = listed user_id w₂ w₃ names listing in
    let (e, t₄) = pure-ok (loaded_of n target names) w₃ w' l end in
    (
      record {
        admins = ground (arith, e, count);
        found = ground (arith, e, found, t₁);
        names = ground (arith, e, list, t₁, t₂);
      },
      t₄ ∙ t₃ ∙ t₂ ∙ t₁,
    )

pub validate_requested_roles-same :
    (roles : Option (List Bytes)) (w w' : World) (u : Unit {0})
    → validate_requested_roles roles w ≡ (ok u, w')
    → (w'.tables ≡ w.tables) × (is_some roles ≡ true → elem (codes "user") (or_none roles) ≡ true)
unfolding validate_requested_roles ◌>>=◌ validate_role_names
validate_requested_roles-same none w w' u h = (ground arith, λ k. ground arith)
validate_requested_roles-same (some roles) w w' u h = (ground arith, λ k. ground arith)
