-- ===== src/RoleGrid/Removed.antt =====
-- rolegrid.go, Delete: the roles and the grants before and after.
use identity_hub.Base.{
  Bool, List, [], ap, arith, count_where, exists_where, false, find, not, refl, select, some, ℕ,
  ◌==◌, ◌∙◌, ◌∷◌, ◌≡◌,
}
use identity_hub.World.{
  Action, RoleRow, Tables, UserRole, World, begin, bind-ok, next, ok, role_deleted, statement,
  statement-ok, transaction-ok, ◌>>=◌, ◌>>◌,
}
use identity_hub.World.Keeps.{Keeps-same, statement-Keeps}
use identity_hub.Sql.Users.{role_names}
use identity_hub.Sql.Audit.{insert_audit_event}
use identity_hub.Sql.Grid.{
  actor_holds_application_role, delete_application_role, is_assigned, is_role_of,
}
use identity_hub.Admin.Grants.{held}
use identity_hub.RoleGrid.Load.{get_role_for_update-Known}
use identity_hub.RoleGrid.{DeleteInput, Role, delete, delete_role, get_role_for_update, grid_audit}

abbrev with_id : ℕ → RoleRow → Bool
with_id id r = r.id == id

none_selected :
    (id : ℕ) (rs : List RoleRow)
    → exists_where (with_id id) (select (λ r. not (r.id == id)) rs) ≡ false
none_selected id [] = refl
none_selected id (r ∷ rs) = ground (arith, none_selected id rs)

other_selected :
    (id other : ℕ) (rs : List RoleRow)
    → (other == id) ≡ false
    → select (with_id other) (select (λ r. not (r.id == id)) rs) ≡ select (with_id other) rs
other_selected id other [] h = refl
other_selected id other (r ∷ rs) h = ground (arith, other_selected id other rs h)

names_stay :
    (id user_id : ℕ) (urs : List UserRole) (rs : List RoleRow)
    → exists_where (is_assigned id) urs ≡ false
    → role_names user_id urs (select (λ r. not (r.id == id)) rs) ≡ role_names user_id urs rs
names_stay id user_id [] rs h = refl
names_stay id user_id (ur ∷ urs) rs h =
    ground (arith, names_stay id user_id urs rs, other_selected id ur.role_id rs)

count-none :
    (id : ℕ) (urs : List UserRole)
    → count_where (is_assigned id) urs ≡ 0
    → exists_where (is_assigned id) urs ≡ false
count-none id [] h = refl
count-none id (ur ∷ urs) h = ground (arith, count-none id urs)

-- A deletion that succeeded.
pub record Removed (input : DeleteInput) (t t' : Tables) : Type 0 where
  pub row : RoleRow
  pub found : find (is_role_of input.application_id input.role_id) t.roles ≡ some row
  pub not_system : row.is_system ≡ false
  pub unassigned : exists_where (is_assigned input.role_id) t.user_roles ≡ false
  pub gone : exists_where (λ (r : RoleRow). r.id == input.role_id) t'.roles ≡ false
  pub same_names : (user_id : ℕ) → held user_id t' ≡ held user_id t

abbrev after_delete : DeleteInput → Role → Action (Unit {0})
after_delete input role =
    statement (delete_application_role role.id)
    >> statement (insert_audit_event (grid_audit role_deleted input.asker role.id))

delete_role-guards :
    (input : DeleteInput) (role : Role) (w w' : World) (u : Unit {0})
    → delete_role input role w ≡ (ok u, w')
    → (role.is_system ≡ false)
      × (role.assigned_count ≡ 0)
      × (after_delete input role (next w) ≡ (ok u, w'))
unfolding delete_role actor_holds_application_role ◌>>=◌
delete_role-guards input role w w' u h = (ground arith, ground arith, ground arith)

deleted_rows :
    (id : ℕ) (w w' : World) (u : Unit {0})
    → statement (delete_application_role id) w ≡ (ok u, w')
    → (w'.tables.roles ≡ select (λ (r : RoleRow). not (r.id == id)) w.tables.roles)
      × (w'.tables.user_roles ≡ w.tables.user_roles)
unfolding delete_application_role
deleted_rows id w w' u h =
    let (ran, at) = statement-ok (delete_application_role id) w w' u h in
    (ground (arith, ran), ground (arith, ran))

abbrev grants_of : Tables → List RoleRow × List UserRole
grants_of t = (t.roles, t.user_roles)

after_delete-rows :
    (input : DeleteInput) (role : Role) (w w' : World) (u : Unit {0})
    → after_delete input role w ≡ (ok u, w')
    → (w'.tables.roles ≡ select (λ (r : RoleRow). not (r.id == role.id)) w.tables.roles)
      × (w'.tables.user_roles ≡ w.tables.user_roles)
unfolding insert_audit_event
after_delete-rows input role w w' u h =
    let audit = grid_audit role_deleted input.asker role.id in
    let (v, w₁, deleting, auditing) =
      bind-ok (statement (delete_application_role role.id))
        (λ _. statement (insert_audit_event audit)) w w' u h in
    let (rs, urs) = deleted_rows role.id w w₁ v deleting in
    let same =
      Keeps-same {f = grants_of} (statement-Keeps (insert_audit_event audit) (λ at t. refl)) w₁ w'
        (ok u) auditing in
    (ground (arith, same, rs), ground (arith, same, urs))

-- When Delete succeeds, the role was one of the application's, no system role, and nobody held it; it
-- is gone, and every user holds the names that they held before.
pub delete-Removed :
    (input : DeleteInput) (w w' : World) (u : Unit {0})
    → delete input w ≡ (ok u, w')
    → Removed input w.tables w'.tables
unfolding delete
delete-Removed input w w' u h =
    let load = get_role_for_update input.application_id input.role_id in
    let (w₁, ran, left) = transaction-ok (load >>= delete_role input) w w' u h in
    let (role, w₂, loaded, rest) = bind-ok load (delete_role input) (begin w) w₁ u ran in
    let (known, same) =
      get_role_for_update-Known input.application_id input.role_id (begin w) w₂ role loaded in
    let (free, unused, after) = delete_role-guards input role w₂ w₁ u rest in
    let (rs, urs) = after_delete-rows input role (next w₂) w₁ u after in
    let unheld =
      count-none input.role_id w.tables.user_roles (ground (arith, known.counts, unused)) in
    let roles : w'.tables.roles
        ≡ select (λ (r : RoleRow). not (r.id == input.role_id)) w.tables.roles =
      ap {B = List RoleRow} (λ (z : World). z.tables.roles) left
      ∙ rs
      ∙ ap {B = List RoleRow} (λ (i : ℕ). select (λ (r : RoleRow). not (r.id == i)) w₂.tables.roles)
          known.same_id
      ∙ ap {B = List RoleRow}
          (λ (t : Tables). select (λ (r : RoleRow). not (r.id == input.role_id)) t.roles) same in
    record {
      row = known.row;
      found = known.found;
      not_system = ground (arith, known.same_system, free);
      unassigned = unheld;
      gone = ground (arith, roles, none_selected input.role_id w.tables.roles);
      same_names = λ user_id. ground (
        arith,
        left,
        roles,
        urs,
        same,
        names_stay input.role_id user_id w.tables.user_roles w.tables.roles unheld,
      );
    }
