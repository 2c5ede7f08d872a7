-- ===== src/Admin/Tests.antt =====
-- admin.go: an administrator gives a role to another account, and asks to change their own.
use identity_hub.Base.{
  Bytes, List, [], arith, codes, elem, exists_where, false, none, refl, some, true, ◌↔◌, ◌∷◌, ◌≡◌,
  ◌≤◌,
}
use identity_hub.World.{Tables, World, ok, transaction, ◌>>=◌}
use identity_hub.Sql.Users.{insert_name, list_roles_for_user, sort_names}
use identity_hub.Sql.Audit.{insert_audit_event}
use identity_hub.Sql.Directory.{
  add_user_role, admin_rows, delete_user_roles, get_user_by_id_for_update, is_grantable,
  lock_active_admin_users, validate_role_names,
}
use identity_hub.Admin.{
  Account, UpdateInput, add_roles, apply_role_change, apply_status_change, apply_to_target,
  apply_user_update, deduplicate, get_user_for_update, lock_and_load_target, parse_status,
  reject_self_role_assignment, removes_active_admin, replace_roles, same_roles, update_user,
  validate_requested_roles, validate_status_change,
}
use identity_hub.Admin.Grants.{UniqueIds, held}
use identity_hub.Admin.Rights.{HasAdmin, update_user-HasAdmin}
use identity_hub.Admin.Names.{same_roles_iff}
use identity_hub.Admin.Assigned.{Assigned, is_disabled, own_account_stays, update_user-Assigned}
use identity_hub.Fixtures.{grant, luis, tables, world}

abbrev start : World
start = world tables

abbrev wanted : List Bytes
wanted = codes "user" ∷ codes "admin" ∷ []

-- Ana makes Luis an administrator.
abbrev promotion : UpdateInput
promotion = record { actor_user_id = 1; user_id = 2; status = none; roles = some wanted }

abbrev promoted : World
promoted = (update_user promotion start).1

abbrev account : Account
account = record { row = luis; roles = wanted }

promotes : update_user promotion start ≡ (ok account, promoted)
unfolding update_user reject_self_role_assignment validate_status_change parse_status
    apply_user_update validate_requested_roles deduplicate lock_and_load_target get_user_for_update
    apply_to_target removes_active_admin apply_status_change apply_role_change same_roles
    replace_roles add_roles ◌>>=◌ transaction get_user_by_id_for_update lock_active_admin_users
    admin_rows list_roles_for_user sort_names insert_name validate_role_names delete_user_roles
    add_user_role is_grantable insert_audit_event
promotes = refl

unique : UniqueIds tables
unique id = ground arith

update_user-Assigned_example : Assigned promotion wanted tables promoted.tables
update_user-Assigned_example =
    update_user-Assigned promotion wanted start promoted account unique refl refl promotes

-- Ana asks to disable her own account.
abbrev retirement : UpdateInput
retirement = record {
  actor_user_id = 1;
  user_id = 1;
  status = some (codes "disabled");
  roles = none;
}

-- Luis, an administrator as well, takes the role from Ana.
abbrev two_admins : Tables
two_admins = record tables { user_roles = grant 2 1 ∷ tables.user_roles }

abbrev demotion : UpdateInput
demotion = record {
  actor_user_id = 2;
  user_id = 1;
  status = none;
  roles = some (codes "user" ∷ []);
}

one_row : admin_rows two_admins.user_roles two_admins.roles 1 ≤ 1
unfolding admin_rows
one_row = omega arith

update_user-HasAdmin_example : HasAdmin (update_user demotion (world two_admins)).1.tables
update_user-HasAdmin_example =
    update_user-HasAdmin demotion (world two_admins) unique (omega arith) one_row refl

own_account_stays_example :
    (held 1 (update_user retirement start).1.tables ≡ held 1 tables)
    × (exists_where (is_disabled 1) tables.users ≡ false
        → exists_where (is_disabled 1) (update_user retirement start).1.tables.users ≡ false)
own_account_stays_example = own_account_stays retirement start unique refl

abbrev swapped : List Bytes
swapped = codes "admin" ∷ codes "user" ∷ []

same_roles_iff_example :
    (same_roles wanted swapped ≡ true) ↔ ((n : Bytes) → elem n wanted ≡ elem n swapped)
same_roles_iff_example = same_roles_iff wanted swapped refl refl
