-- ===== src/RoleGrid/Own.antt =====
-- rolegrid.go, control 2: requests about a role that the actor holds.
use identity_hub.Base.{
  Bool, Bool-cases, Bytes, List, Option, ap, arith, exists_where, inl, inr, is_some, none, not,
  refl, some, true, ℕ, ◌&&◌, ◌==◌, ◌∙◌, ◌≡◌, ◌≢◌,
}
use identity_hub.World.{
  Action, Permission, Result-cases, RolePermission, Tables, UserRole, World, begin, bind-ok, ok,
  pure, pure-ok, role_updated, statement, transaction, transaction-err, transaction-ok, ◌>>=◌, ◌>>◌,
}
use identity_hub.World.Keeps.{Keeps, Keeps-same, bind-Keeps, pure-Keeps, statement-Keeps}
use identity_hub.Sql.Audit.{AuditEvent, insert_audit_event}
use identity_hub.Sql.Grid.{actor_holds_application_role, update_application_role_description}
use identity_hub.RoleGrid.Load.{get_role_for_update-Known}
use identity_hub.RoleGrid.{
  DeleteInput, Role, Service, UpdateInput, delete, delete_role, get_role_for_update, grid_audit,
  replace_role_permissions, set_description, set_permissions, update, update_role, update_within,
}

-- The user holds the role.
abbrev pub holds : ℕ → ℕ → Tables → Bool
holds user_id role_id t =
    exists_where (λ (ur : UserRole). ur.user_id == user_id && ur.role_id == role_id) t.user_roles

abbrev pub grants : Tables → List RolePermission × List Permission
grants t = (t.role_permissions, t.permissions)

replace-refused :
    (input : UpdateInput) (role : Role) (asked : List Bytes) (w w' : World) (r : Role)
    → holds input.asker.actor_user_id role.id w.tables ≡ true
    → replace_role_permissions input role asked w ≢ (ok r, w')
unfolding replace_role_permissions actor_holds_application_role ◌>>=◌
replace-refused input role asked w w' r h k = ground arith

audit-Keeps : (e : AuditEvent) → Keeps grants (statement (insert_audit_event e))
unfolding insert_audit_event
audit-Keeps e = statement-Keeps (insert_audit_event e) (λ at t. refl)

text-same :
    (id : ℕ) (text : Bytes) (at : ℕ) (t : Tables)
    → grants (update_application_role_description id text at t).1 ≡ grants t
unfolding update_application_role_description
text-same id text at t = ground arith

described-Keeps : (role : Role) (o : Option Bytes) → Keeps grants (set_description role o)
described-Keeps role none = pure-Keeps role
described-Keeps role (some text) =
    bind-Keeps
      (statement-Keeps (update_application_role_description role.id text) (text-same role.id text))
      λ _. pure-Keeps _

abbrev pub finish_update : UpdateInput → Role → Role → Action Role
finish_update input role with_keys = do
  with_text ← set_description with_keys input.description
  statement (insert_audit_event (grid_audit role_updated input.asker role.id))
  pure with_text

pub finish_update-Keeps :
    (input : UpdateInput) (role with_keys : Role)
    → Keeps grants (finish_update input role with_keys)
finish_update-Keeps input role with_keys =
    bind-Keeps (described-Keeps with_keys input.description) λ with_text.
      bind-Keeps (audit-Keeps (grid_audit role_updated input.asker role.id))
        λ _. pure-Keeps with_text

abbrev pub apply_update : UpdateInput → Role → Action Role
apply_update input role =
    set_permissions input role input.permission_keys >>= finish_update input role

pub update_role-guards :
    (s : Service) (input : UpdateInput) (role : Role) (w w' : World) (r : Role)
    → update_role s input role w ≡ (ok r, w')
    → apply_update input role w ≡ (ok r, w')
unfolding update_role ◌>>=◌
update_role-guards s input role w w' r h = ground arith

permissions_unset :
    (input : UpdateInput) (role : Role) (o : Option (List Bytes)) (w w' : World) (r : Role)
    → holds input.asker.actor_user_id role.id w.tables ≡ true
    → set_permissions input role o w ≡ (ok r, w')
    → w'.tables ≡ w.tables
permissions_unset input role none w w' r h k = (pure-ok role w w' r k).1
permissions_unset input role (some asked) w w' r h k =
    absurd (replace-refused input role asked w w' r h k)

update_within-same :
    (s : Service) (input : UpdateInput) (w w' : World) (r : Role)
    → holds input.asker.actor_user_id input.role_id w.tables ≡ true
    → update_within s input w ≡ (ok r, w')
    → grants w'.tables ≡ grants w.tables
unfolding update_within
update_within-same s input w w' r h k =
    let load = get_role_for_update input.application_id input.role_id in
    let (role, w₁, loaded, rest) = bind-ok load (update_role s input) w w' r k in
    let (known, same) =
      get_role_for_update-Known input.application_id input.role_id w w₁ role loaded in
    let applied = update_role-guards s input role w₁ w' r rest in
    let (with_keys, w₂, setting, end) =
      bind-ok (set_permissions input role input.permission_keys) (finish_update input role) w₁ w' r
        applied in
    let there : holds input.asker.actor_user_id role.id w₁.tables ≡ true =
      ap {B = Bool} (λ (i : ℕ). holds input.asker.actor_user_id i w₁.tables) known.same_id
      ∙ ap {B = Bool} (λ (t : Tables). holds input.asker.actor_user_id input.role_id t) same
      ∙ h in
    let unset = permissions_unset input role input.permission_keys w₁ w₂ with_keys there setting in
    Keeps-same {f = grants} (finish_update-Keeps input role with_keys) w₂ w' (ok r) end
    ∙ ap grants (unset ∙ same)

settled :
    {A : Type 0} (m : Action A) (w : World)
    → ((a : A) (w' : World) → m (begin w) ≡ (ok a, w') → grants w'.tables ≡ grants w.tables)
    → grants (transaction m w).1.tables ≡ grants w.tables
settled m w f = elim (Result-cases (transaction m w).0) [
  | inr (e, h) ↦ ap grants (transaction-err m w e h)
  | inl (a, h) ↦
      let (w₁, ran, left) = transaction-ok m w (transaction m w).1 a (ground (arith, h)) in
      ap {B = List RolePermission × List Permission} (λ (z : World). grants z.tables) left
      ∙ f a w₁ ran
]

-- Whatever a holder asks of Update, the permissions of
-- all roles are as they were.
update-same :
    (s : Service) (input : UpdateInput) (w : World)
    → holds input.asker.actor_user_id input.role_id w.tables ≡ true
    → (update s input w).1.tables.role_permissions ≡ w.tables.role_permissions
unfolding update ◌>>=◌
update-same s input w h =
    elim (Bool-cases (not (is_some input.description) && not (is_some input.permission_keys))) [
      | inl e ↦ ground arith
      | inr e ↦ ground (
        arith,
        settled (update_within s input) w (λ r w' k. update_within-same s input (begin w) w' r h k),
      )
    ]

delete_role-refused :
    (input : DeleteInput) (role : Role) (w w' : World) (u : Unit {0})
    → holds input.asker.actor_user_id role.id w.tables ≡ true
    → delete_role input role w ≢ (ok u, w')
unfolding delete_role actor_holds_application_role ◌>>=◌
delete_role-refused input role w w' u h k = ground arith

deleting-same :
    (input : DeleteInput) (w : World)
    → holds input.asker.actor_user_id input.role_id w.tables ≡ true
    → (delete input w).1.tables ≡ w.tables
unfolding delete
deleting-same input w h =
    let load = get_role_for_update input.application_id input.role_id in
    elim (Result-cases (transaction (load >>= delete_role input) w).0) [
      | inr (e, k) ↦ transaction-err (load >>= delete_role input) w e k
      | inl (u, k) ↦
          let (w₁, ran, left) =
            transaction-ok (load >>= delete_role input) w
              (transaction (load >>= delete_role input) w).1 u (ground (arith, k)) in
          let (role, w₂, loaded, rest) = bind-ok load (delete_role input) (begin w) w₁ u ran in
          let (known, same) =
            get_role_for_update-Known input.application_id input.role_id (begin w) w₂ role loaded in
          let there : holds input.asker.actor_user_id role.id w₂.tables ≡ true =
            ap {B = Bool} (λ (i : ℕ). holds input.asker.actor_user_id i w₂.tables) known.same_id
            ∙ ap {B = Bool} (λ (t : Tables). holds input.asker.actor_user_id input.role_id t) same
            ∙ h in
          absurd (delete_role-refused input role w₂ w₁ u there rest)
    ]

-- For a role that they hold, nobody changes permissions: whatever they ask of Update, and whatever
-- fails, the permissions of all roles are as they were, and after Delete all tables are.
pub held_role_stays :
    (s : Service) (change : UpdateInput) (removal : DeleteInput) (w : World)
    → holds change.asker.actor_user_id change.role_id w.tables ≡ true
    → holds removal.asker.actor_user_id removal.role_id w.tables ≡ true
    → ((update s change w).1.tables.role_permissions ≡ w.tables.role_permissions)
      × ((delete removal w).1.tables ≡ w.tables)
held_role_stays s change removal w h k = (update-same s change w h, deleting-same removal w k)
