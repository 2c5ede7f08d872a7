-- ===== src/Admin.antt =====
-- backend/internal/auth/admin/admin.go: the administration of accounts, over the writer of
-- backend/internal/store/admin_users.go.
pub mod Grants
pub mod Load
pub mod Update
pub mod Remaining
pub mod Guard
pub mod Rights
pub mod Names
pub mod Assigned
mod Tests
use identity_hub.Base.{
  Bool, Bytes, List, Option, [], bytes_eq, codes, elem, false, if◌then◌else◌, is_some, leb, length,
  none, not, some, true, ℕ, ◌&&◌, ◌++◌, ◌==◌, ◌||◌, ◌∷◌,
}
use identity_hub.World.{
  Action, AuditAction, Error, Result, User, UserStatus, World, active, base_role_required,
  cross_organization_role, disabled, done, err, fail, invalid_role, invalid_status,
  last_active_admin, locked, map_error, no_rows_as, ok, pending_verification, pure,
  role_assignment_rejected, role_changed, self_disable, self_role_assignment, statement, status_eq,
  storage, transaction, user_disabled, user_not_found, ◌>>=◌, ◌>>◌,
}
use identity_hub.Sql.Users.{list_roles_for_user}
use identity_hub.Sql.Audit.{AuditEvent, insert_audit_event}
use identity_hub.Sql.Directory.{
  add_user_role, delete_user_roles, get_user_by_id_for_update, lock_active_admin_users,
  update_admin_user_status, validate_role_names,
}

-- `status` is the text of the request; `roles` replaces all roles of the user.
pub record UpdateInput : Type 0 where
  pub actor_user_id : ℕ
  pub user_id : ℕ
  pub status : Option Bytes
  pub roles : Option (List Bytes)

-- User, of which only the row and the roles matter here.
pub record Account : Type 0 where
  pub row : User
  pub roles : List Bytes

-- validStatus, with the conversion to the column's type.
unfoldable pub parse_status : Bytes → Option UserStatus
parse_status s =
    if bytes_eq s (codes "pending_verification")
    then some pending_verification
    else if bytes_eq s (codes "active")
    then some active
    else if bytes_eq s (codes "locked")
    then some locked
    else if bytes_eq s (codes "disabled")
    then some disabled
    else none

-- The loop of deduplicate.
abbrev pub deduplicate_from : List Bytes → List Bytes → List Bytes
deduplicate_from result [] = result
deduplicate_from result (role ∷ roles) =
    deduplicate_from (if elem role result then result else result ++ role ∷ []) roles

-- deduplicate
unfoldable pub deduplicate : List Bytes → List Bytes
deduplicate roles = deduplicate_from [] roles

abbrev pub includes : List Bytes → List Bytes → Bool
includes right [] = true
includes right (role ∷ left) = if elem role right then includes right left else false

-- sameRoles
unfoldable pub same_roles : List Bytes → List Bytes → Bool
same_roles left right = length left == length right && includes right left

-- removesActiveAdmin
unfoldable pub removes_active_admin : Account → List Bytes → UserStatus → List Bytes → Bool
removes_active_admin target current_roles new_status new_roles =
    status_eq target.row.status active
    && elem (codes "admin") current_roles
    && (not (status_eq new_status active) || not (elem (codes "admin") new_roles))

abbrev pub admin_audit : AuditAction → Option Bytes → UpdateInput → AuditEvent
admin_audit action reason input = record {
  actor = some input.actor_user_id;
  action = action;
  reason = reason;
  resource_id = some input.user_id;
  ip = none;
  user_agent = none;
}

-- An audit event in a transaction of its own.
abbrev pub audit_alone : AuditAction → Option Bytes → UpdateInput → Action (Unit {0})
audit_alone action reason input =
    transaction (statement (insert_audit_event (admin_audit action reason input)))

-- rejectSelfRoleAssignment
pub reject_self_role_assignment : UpdateInput → Action (Unit {0})
reject_self_role_assignment input =
    if not (is_some input.roles) || not (input.actor_user_id == input.user_id)
    then done
    else do audit_alone role_assignment_rejected none input; fail self_role_assignment

-- validateStatusChange: the new status, if there is one.
pub validate_status_change : UpdateInput → Result (Option UserStatus)
unfolding parse_status
validate_status_change input = elim input.status [
  | none ↦ ok none
  | some text ↦ elim (parse_status text) [
    | none ↦ err invalid_status
    | some status ↦
        if status_eq status disabled && input.actor_user_id == input.user_id
        then err self_disable
        else ok (some status)
  ]
]

-- validateRequestedRoles
pub validate_requested_roles : Option (List Bytes) → Action (Unit {0})
unfolding deduplicate
validate_requested_roles none = done
validate_requested_roles (some roles) = do
  found ← statement (validate_role_names (deduplicate roles))
  if not (length found == length (deduplicate roles))
      then fail invalid_role
      else if not (elem (codes "user") (deduplicate roles))
      then fail base_role_required
      else done

-- GetUserForUpdate of the writer.
pub get_user_for_update : ℕ → Action Account
get_user_for_update user_id = do
  row ← map_error (no_rows_as user_not_found) (statement (get_user_by_id_for_update user_id))
  roles ← statement (list_roles_for_user user_id)
  pure (record { row = row; roles = roles })

pub record Loaded : Type 0 where
  pub active_admins : ℕ
  pub target : Account
  pub current_roles : List Bytes

-- lockAndLoadTarget
pub lock_and_load_target : ℕ → Action Loaded
lock_and_load_target user_id = do
  active_admins ← statement lock_active_admin_users
  target ← get_user_for_update user_id
  current_roles ← statement (list_roles_for_user user_id)
  pure (record { active_admins = active_admins; target = target; current_roles = current_roles })

-- UpdateUser of the writer.
pub update_user_row : ℕ → UserStatus → Action Account
update_user_row user_id status = do
  row ← statement (update_admin_user_status user_id status)
  roles ← statement (list_roles_for_user user_id)
  pure (record { row = row; roles = roles })

-- applyStatusChange
pub apply_status_change : UpdateInput → Option UserStatus → Account → Action Account
apply_status_change input none target = pure target
apply_status_change input (some status) target =
    if status_eq status target.row.status then pure target else do
      updated ← update_user_row input.user_id status
      if status_eq status disabled
          then statement (insert_audit_event (admin_audit user_disabled none input))
          else done
      pure updated

-- The loop of ReplaceRoles; a role that is missing is an error with no name of its own.
pub add_roles : ℕ → ℕ → List Bytes → Action (Unit {0})
add_roles user_id granted_by [] = done
add_roles user_id granted_by (role ∷ roles) = do
  rows ← statement (add_user_role user_id role granted_by)
  if not (rows == 1) then fail storage else add_roles user_id granted_by roles

-- ReplaceRoles of the writer.
pub replace_roles : ℕ → List Bytes → ℕ → Action (Unit {0})
replace_roles user_id roles granted_by =
    statement (delete_user_roles user_id) >> add_roles user_id granted_by roles

-- applyRoleChange
pub apply_role_change : UpdateInput → List Bytes → List Bytes → Action (Unit {0})
unfolding same_roles
apply_role_change input current_roles new_roles =
    if not (is_some input.roles) || same_roles current_roles new_roles then done else do
      replace_roles input.user_id new_roles input.actor_user_id
      statement (insert_audit_event (admin_audit role_changed none input))

-- The roles of the request without duplicates; none when there are none.
abbrev pub or_none : Option (List Bytes) → List Bytes
or_none none = []
or_none (some roles) = deduplicate roles

-- newRoles
abbrev pub new_roles_of : UpdateInput → List Bytes → List Bytes
new_roles_of input current_roles = elim input.roles [
  | none ↦ current_roles
  | some roles ↦ deduplicate roles
]

abbrev pub or_status : Option UserStatus → UserStatus → UserStatus
or_status none old = old
or_status (some new) old = new

abbrev pub would_remove : UpdateInput → Option UserStatus → Loaded → Bool
would_remove input status l =
    removes_active_admin l.target l.current_roles (or_status status l.target.row.status)
      (new_roles_of input l.current_roles)

-- applyUserUpdate, after the target is loaded.
pub apply_to_target : UpdateInput → Option UserStatus → Loaded → Action Account
unfolding removes_active_admin deduplicate
apply_to_target input status l =
    if would_remove input status l && leb l.active_admins 1 then fail last_active_admin else do
      updated ← apply_status_change input status l.target
      apply_role_change input l.current_roles (new_roles_of input l.current_roles)
      pure (record updated { roles = new_roles_of input l.current_roles })

-- applyUserUpdate
pub apply_user_update : UpdateInput → Option UserStatus → Action Account
apply_user_update input status = do
  validate_requested_roles input.roles
  loaded ← lock_and_load_target input.user_id
  apply_to_target input status loaded

-- errors.Is(err, ErrCrossOrganizationRole)
abbrev pub is_cross_organization : Error → Bool
is_cross_organization cross_organization_role = true
is_cross_organization _ = false

-- auditOrganizationMismatch
pub audit_organization_mismatch : UpdateInput → Action (Unit {0})
audit_organization_mismatch input =
    audit_alone role_assignment_rejected (some (codes "organization_mismatch")) input

-- The end of UpdateUser, after its transaction.
abbrev pub after_update : UpdateInput → Result Account × World → Result Account × World
after_update input (ok a, w) = (ok a, w)
after_update input (err e, w) =
    if is_cross_organization e
    then (audit_organization_mismatch input >> fail cross_organization_role) w
    else (err e, w)

abbrev pub update_valid : UpdateInput → Result (Option UserStatus) → Action Account
update_valid input (err e) = fail e
update_valid input (ok status) =
    λ w. after_update input (transaction (apply_user_update input status) w)

-- UpdateUser
pub update_user : UpdateInput → Action Account
update_user input =
    reject_self_role_assignment input >> update_valid input (validate_status_change input)
