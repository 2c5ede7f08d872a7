-- ===== src/RoleGrid/Tests.antt =====
-- rolegrid.go: a role is made and deleted, and the actor's own role.
use identity_hub.Base.{
  Bytes, List, [], arith, codes, elem, false, find, length, none, refl, some, ℕ, ◌==◌, ◌∷◌, ◌≡◌,
  ◌≢◌,
}
use identity_hub.World.{Application, World, ok, transaction, ◌>>=◌}
use identity_hub.Sql.Users.{insert_name, sort_names}
use identity_hub.Sql.Audit.{insert_audit_event}
use identity_hub.Sql.Grid.{
  actor_holds_application_role, add_application_role_permission, create_application_role,
  delete_application_role, delete_application_role_permissions, get_application_role,
  get_role_grid_application, lock_application_role, validate_application_permission_keys,
}
use identity_hub.Roles.{application, before_dot, is_directory}
use identity_hub.RoleGrid.Named.{create-Named, created-not_directory}
use identity_hub.RoleGrid.Removed.{Removed, delete-Removed}
use identity_hub.RoleGrid.Permitted.{UniquePermissions, keys_of}
use identity_hub.RoleGrid.Regranted.{update-Regranted}
use identity_hub.RoleGrid.Own.{held_role_stays}
use identity_hub.RoleGrid.{
  Asker, CreateInput, DeleteInput, Role, Service, UpdateInput, add_permissions, create,
  create_within, delete, delete_role, get_role_for_update, replace_permissions,
  replace_role_permissions, store_role, unique_keys, update, update_role, update_within, valid_name,
  validate_permissions,
}
use identity_hub.Fixtures.{grant, tables, world}

abbrev service : Service
service = record { rune_count = λ b. length b }

abbrev ana_asks : Asker
ana_asks = record { actor_user_id = 1; ip = none; user_agent = none }

abbrev luis_asks : Asker
luis_asks = record { actor_user_id = 2; ip = none; user_agent = none }

abbrev input : CreateInput
input = record {
  asker = ana_asks;
  application_id = 50;
  name = codes "contabilidad.lector";
  description = [];
  permission_keys = codes "facturas:leer" ∷ [];
}

abbrev start : World
start = world tables

abbrev made : World
made = (create service input start).1

abbrev reader : Role
reader = record {
  id = 203;
  application_id = 50;
  name = codes "contabilidad.lector";
  description = [];
  permission_keys = codes "facturas:leer" ∷ [];
  is_system = false;
  assigned_count = 0;
}

creates : create service input start ≡ (ok reader, made)
unfolding create create_within valid_name ◌>>=◌ transaction get_role_grid_application store_role
    validate_permissions unique_keys sort_names insert_name validate_application_permission_keys
    create_application_role replace_permissions add_permissions delete_application_role_permissions
    add_application_role_permission insert_audit_event
creates = refl

created-not_directory_example : is_directory reader.name ≡ false
created-not_directory_example = created-not_directory service input start made reader creates

dotless :
    (a : Application)
    → find (λ q. q.id == 50) tables.applications ≡ some a
    → before_dot a.client_id ≡ none
dotless a h = ground arith

create-Named_example :
    (is_directory reader.name ≡ false)
    × ((a : Application) × (find (λ q. q.id == 50) tables.applications ≡ some a)
        × (application reader.name ≡ a.client_id))
create-Named_example = create-Named service input start made reader dotless creates

-- Luis no longer holds the application's role.
abbrev unheld : World
unheld = world (record tables { user_roles = grant 1 1 ∷ grant 2 2 ∷ [] })

abbrev removal : DeleteInput
removal = record { asker = ana_asks; application_id = 50; role_id = 3 }

abbrev removed : World
removed = (delete removal unheld).1

deletes : delete removal unheld ≡ (ok tt, removed)
unfolding delete delete_role get_role_for_update ◌>>=◌ transaction lock_application_role
    get_application_role sort_names insert_name actor_holds_application_role delete_application_role
    insert_audit_event
deletes = refl

delete-Removed_example : Removed removal unheld.tables removed.tables
delete-Removed_example = delete-Removed removal unheld removed tt deletes

abbrev own_change : UpdateInput
own_change = record {
  asker = luis_asks;
  application_id = 50;
  role_id = 3;
  description = none;
  permission_keys = some [];
}

abbrev own_removal : DeleteInput
own_removal = record { asker = luis_asks; application_id = 50; role_id = 3 }

held_role_stays_example :
    ((update service own_change start).1.tables.role_permissions ≡ tables.role_permissions)
    × ((delete own_removal start).1.tables ≡ tables)
held_role_stays_example = held_role_stays service own_change own_removal start refl refl

abbrev asked : List Bytes
asked = codes "facturas:leer" ∷ codes "facturas:leer" ∷ []

abbrev change : UpdateInput
change = record {
  asker = ana_asks;
  application_id = 50;
  role_id = 3;
  description = none;
  permission_keys = some asked;
}

abbrev bare : World
bare = world (record tables { role_permissions = [] })

abbrev changed_role : Role
changed_role = record {
  id = 3;
  application_id = 50;
  name = codes "contabilidad.senior";
  description = [];
  permission_keys = codes "facturas:leer" ∷ [];
  is_system = false;
  assigned_count = 1;
}

abbrev regranted : World
regranted = (update service change bare).1

updates : update service change bare ≡ (ok changed_role, regranted)
unfolding update update_within update_role get_role_for_update replace_role_permissions ◌>>=◌
    transaction lock_application_role get_application_role actor_holds_application_role
    validate_permissions unique_keys sort_names insert_name validate_application_permission_keys
    replace_permissions add_permissions delete_application_role_permissions
    add_application_role_permission insert_audit_event
updates = refl

unique : UniquePermissions bare.tables
unique id = ground arith

update-Regranted_example :
    ((k : Bytes) → elem k (keys_of 3 regranted.tables) ≡ elem k asked)
    × ((other : ℕ) → other ≢ 3 → keys_of other regranted.tables ≡ keys_of other bare.tables)
update-Regranted_example =
    update-Regranted service change asked bare regranted changed_role unique refl updates
