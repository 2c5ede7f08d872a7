-- ===== src/RoleGrid.antt =====
-- backend/internal/auth/rolegrid/rolegrid.go: the configurable roles of an application, over the writer
-- of backend/internal/store/rolegrid.go.
pub mod Load
pub mod Named
pub mod Removed
pub mod Own
pub mod Permitted
pub mod Regranted
mod Tests
use identity_hub.Base.{
  Bool, Bytes, List, Option, [], cut_prefix, elem, false, if◌then◌else◌, is_some, leb, length, ltb,
  none, not, some, true, ℕ, ◌&&◌, ◌++◌, ◌==◌, ◌||◌, ◌∷◌,
}
use identity_hub.World.{
  Action, AuditAction, application_not_found, done, empty_update, fail, invalid_description,
  invalid_permission, invalid_role_name, map_error, no_rows_as, pure, role_assigned, role_created,
  role_deleted, role_not_found, role_updated, self_permission_change, self_role_delete, statement,
  statement_with_id, system_role, transaction, ◌>>=◌, ◌>>◌,
}
use identity_hub.Sql.Users.{sort_names}
use identity_hub.Sql.Audit.{AuditEvent, insert_audit_event}
use identity_hub.Sql.Grid.{
  Counted, actor_holds_application_role, add_application_role_permission, create_application_role,
  delete_application_role, delete_application_role_permissions, get_application_role,
  get_role_grid_application, lock_application_role, update_application_role_description,
  validate_application_permission_keys,
}

-- `rune_count` is utf8.RuneCountInString. The repository is there.
pub record Service : Type 0 where
  pub rune_count : Bytes → ℕ

-- Who asks, as the audit records it.
pub record Asker : Type 0 where
  pub actor_user_id : ℕ
  pub ip : Option ℕ
  pub user_agent : Option Bytes

pub record CreateInput : Type 0 where
  pub asker : Asker
  pub application_id : ℕ
  pub name : Bytes
  pub description : Bytes
  pub permission_keys : List Bytes

pub record UpdateInput : Type 0 where
  pub asker : Asker
  pub application_id : ℕ
  pub role_id : ℕ
  pub description : Option Bytes
  pub permission_keys : Option (List Bytes)

pub record DeleteInput : Type 0 where
  pub asker : Asker
  pub application_id : ℕ
  pub role_id : ℕ

pub record Role : Type 0 where
  pub id : ℕ
  pub application_id : ℕ
  pub name : Bytes
  pub description : Bytes
  pub permission_keys : List Bytes
  pub is_system : Bool
  pub assigned_count : ℕ

-- MaxDescriptionLength
abbrev pub max_description : ℕ
max_description = 500

abbrev pub is_alnum : ℕ → Bool
is_alnum c = leb b'a' c && leb c b'z' || leb b'0' c && leb c b'9'

abbrev pub all_slug : Bytes → Bool
all_slug [] = true
all_slug (c ∷ cs) = (is_alnum c || c == b'_' || c == b'-') && all_slug cs

-- roleSlug: ^[a-z0-9][a-z0-9_-]{1,40}$
abbrev pub is_slug : Bytes → Bool
is_slug [] = false
is_slug (c ∷ cs) = is_alnum c && (leb 1 (length cs) && leb (length cs) 40 && all_slug cs)

abbrev pub is_some_slug : Option Bytes → Bool
is_some_slug none = false
is_some_slug (some slug) = is_slug slug

-- validName
unfoldable pub valid_name : Bytes → Bytes → Bool
valid_name client_id name = is_some_slug (cut_prefix (client_id ++ b'.' ∷ []) name)

-- The loop of validatePermissions; the set `seen` is a list.
abbrev pub unique_from : List Bytes → List Bytes → List Bytes
unique_from seen [] = []
unique_from seen (key ∷ keys) =
    if elem key seen then unique_from seen keys else key ∷ unique_from (key ∷ seen) keys

-- The keys without duplicates, sorted.
unfoldable pub unique_keys : List Bytes → List Bytes
unfolding sort_names
unique_keys keys = sort_names (unique_from [] keys)

-- validatePermissions
pub validate_permissions : ℕ → List Bytes → Action (List Bytes)
unfolding unique_keys
validate_permissions app keys = do
  found ← statement (validate_application_permission_keys app (unique_keys keys))
  if not (length found == length (unique_keys keys))
      then fail invalid_permission
      else pure (unique_keys keys)

-- auditEvent, with InsertRoleGridAuditEvent of the writer; the metadata is left out.
abbrev pub grid_audit : AuditAction → Asker → ℕ → AuditEvent
grid_audit action asker role_id = record {
  actor = some asker.actor_user_id;
  action = action;
  reason = none;
  resource_id = some role_id;
  ip = asker.ip;
  user_agent = asker.user_agent;
}

-- The loop of ReplaceApplicationRolePermissions.
pub add_permissions : ℕ → ℕ → List Bytes → Action (Unit {0})
add_permissions role_id app [] = done
add_permissions role_id app (key ∷ keys) = do
  rows ← statement (add_application_role_permission role_id app key)
  if not (rows == 1) then fail invalid_permission else add_permissions role_id app keys

-- ReplaceApplicationRolePermissions of the writer.
pub replace_permissions : ℕ → ℕ → List Bytes → Action (Unit {0})
replace_permissions role_id app keys =
    statement (delete_application_role_permissions role_id) >> add_permissions role_id app keys

-- Create, inside its transaction, for a request whose name and description are in order.
pub store_role : CreateInput → Action Role
store_role input = do
  keys ← validate_permissions input.application_id input.permission_keys
  row ←
      statement_with_id (create_application_role input.application_id input.name input.description)
  replace_permissions row.id input.application_id keys
  statement (insert_audit_event (grid_audit role_created input.asker row.id))
  pure (record {
    id = row.id;
    application_id = input.application_id;
    name = row.name;
    description = row.description;
    permission_keys = keys;
    is_system = row.is_system;
    assigned_count = 0;
  })

pub create_within : Service → CreateInput → Action Role
create_within s input = do
  app ←
      map_error (no_rows_as application_not_found)
        (statement (get_role_grid_application input.application_id))
  if not (valid_name app.client_id input.name)
      then fail invalid_role_name
      else if ltb max_description (s.rune_count input.description)
      then fail invalid_description
      else store_role input

-- Create
pub create : Service → CreateInput → Action Role
create s input = transaction (create_within s input)

abbrev pub role_of : ℕ → Counted → Role
role_of app c = record {
  id = c.row.id;
  application_id = app;
  name = c.row.name;
  description = c.row.description;
  permission_keys = c.permission_keys;
  is_system = c.row.is_system;
  assigned_count = c.assigned_count;
}

-- GetApplicationRoleForUpdate of the writer.
pub get_role_for_update : ℕ → ℕ → Action Role
get_role_for_update app id = do
  map_error (no_rows_as role_not_found) (statement (lock_application_role app id))
  c ← map_error (no_rows_as role_not_found) (statement (get_application_role app id))
  pure (role_of app c)

-- replaceRolePermissions: the role with its new keys.
pub replace_role_permissions : UpdateInput → Role → List Bytes → Action Role
replace_role_permissions input role asked = do
  holds ← statement (actor_holds_application_role input.asker.actor_user_id role.id)
  if holds then fail self_permission_change else do
    keys ← validate_permissions input.application_id asked
    replace_permissions role.id input.application_id keys
    pure (record role { permission_keys = keys })

abbrev pub set_permissions : UpdateInput → Role → Option (List Bytes) → Action Role
set_permissions input role none = pure role
set_permissions input role (some asked) = replace_role_permissions input role asked

abbrev pub set_description : Role → Option Bytes → Action Role
set_description role none = pure role
set_description role (some text) =
    statement (update_application_role_description role.id text)
    >> pure (record role { description = text })

abbrev pub is_too_long : Service → Option Bytes → Bool
is_too_long s none = false
is_too_long s (some text) = ltb max_description (s.rune_count text)

-- updateWithinTransaction, for the role that was loaded.
pub update_role : Service → UpdateInput → Role → Action Role
update_role s input role =
    if role.is_system
    then fail system_role
    else if is_too_long s input.description
    then fail invalid_description
    else do
      with_keys ← set_permissions input role input.permission_keys
      with_text ← set_description with_keys input.description
      statement (insert_audit_event (grid_audit role_updated input.asker role.id))
      pure with_text

-- updateWithinTransaction
pub update_within : Service → UpdateInput → Action Role
update_within s input =
    get_role_for_update input.application_id input.role_id >>= update_role s input

-- Update
pub update : Service → UpdateInput → Action Role
update s input =
    if not (is_some input.description) && not (is_some input.permission_keys)
    then fail empty_update
    else transaction (update_within s input)

-- Delete, inside its transaction, for the role that was loaded.
pub delete_role : DeleteInput → Role → Action (Unit {0})
delete_role input role = if role.is_system then fail system_role else do
  holds ← statement (actor_holds_application_role input.asker.actor_user_id role.id)
  if holds
      then fail self_role_delete
      else if ltb 0 role.assigned_count
      then fail role_assigned
      else do
        statement (delete_application_role role.id)
        statement (insert_audit_event (grid_audit role_deleted input.asker role.id))

-- Delete
pub delete : DeleteInput → Action (Unit {0})
delete input =
    transaction (get_role_for_update input.application_id input.role_id >>= delete_role input)
