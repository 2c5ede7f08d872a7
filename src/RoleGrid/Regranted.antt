-- ===== src/RoleGrid/Regranted.antt =====
-- rolegrid.go, Update: the permissions of roles before and after.
use identity_hub.Base.{
  Bool, Bytes, List, [], arith, bytes_eq_sound, elem, false, if◌then◌else◌, refl, some, ℕ, ◌∙◌, ◌∷◌,
  ◌≡◌, ◌≢◌,
}
use identity_hub.World.{
  Action, World, begin, bind-ok, fail, ok, pure, pure-ok, self_permission_change, statement,
  transaction-ok, ◌>>=◌, ◌>>◌,
}
use identity_hub.World.Keeps.{Keeps-same}
use identity_hub.Sql.Sorted.{elem-sort_names}
use identity_hub.Sql.Grid.{actor_holds_application_role, validate_application_permission_keys}
use identity_hub.RoleGrid.Load.{get_role_for_update-Known}
use identity_hub.RoleGrid.Own.{finish_update, finish_update-Keeps, grants, update_role-guards}
use identity_hub.RoleGrid.Permitted.{
  Granted, UniquePermissions, keys_of, replace_permissions-Granted,
}
use identity_hub.RoleGrid.{
  Role, Service, UpdateInput, get_role_for_update, replace_permissions, replace_role_permissions,
  set_permissions, unique_from, unique_keys, update, update_role, update_within,
  validate_permissions,
}

elem-unique_from :
    (k : Bytes) (seen keys : List Bytes)
    → elem k seen ≡ false
    → elem k (unique_from seen keys) ≡ elem k keys
elem-unique_from k seen [] h = refl
elem-unique_from k seen (key ∷ keys) h = ground (
  arith,
  elem-unique_from k seen keys h,
  elem-unique_from k (key ∷ seen) keys,
  bytes_eq_sound key k,
)

-- The sorted keys without duplicates are the keys.
unique_keys_lem : (k : Bytes) (keys : List Bytes) → elem k (unique_keys keys) ≡ elem k keys
unfolding unique_keys
unique_keys_lem k keys = elem-sort_names k (unique_from [] keys) ∙ elem-unique_from k [] keys refl

validated :
    (app : ℕ) (asked keys : List Bytes) (w w' : World)
    → validate_permissions app asked w ≡ (ok keys, w')
    → (keys ≡ unique_keys asked) × (w'.tables ≡ w.tables)
unfolding validate_permissions validate_application_permission_keys ◌>>=◌
validated app asked keys w w' h = (ground arith, ground arith)

holder_read :
    (user_id role_id : ℕ) (w w' : World) (b : Bool)
    → statement (actor_holds_application_role user_id role_id) w ≡ (ok b, w')
    → w'.tables ≡ w.tables
unfolding actor_holds_application_role ◌>>=◌
holder_read user_id role_id w w' b h = ground arith

abbrev set_keys : UpdateInput → Role → List Bytes → Action Role
set_keys input role asked = do
  keys ← validate_permissions input.application_id asked
  replace_permissions role.id input.application_id keys
  pure (record role { permission_keys = keys })

unless_held :
    (b : Bool) (m : Action Role) (w w' : World) (r : Role)
    → (if b then fail self_permission_change else m) w ≡ (ok r, w')
    → m w ≡ (ok r, w')
unfolding ◌>>=◌
unless_held b m w w' r h = ground arith

set_keys-Granted :
    (input : UpdateInput) (role : Role) (asked : List Bytes) (w w' : World) (r : Role)
    → UniquePermissions w.tables
    → set_keys input role asked w ≡ (ok r, w')
    → Granted role.id (unique_keys asked) [] w.tables w'.tables
set_keys-Granted input role asked w w' r unique h =
    let (keys, w₁, checking, rest) =
      bind-ok (validate_permissions input.application_id asked)
        (λ keys. replace_permissions role.id input.application_id keys >>= λ _.
          pure (record role { permission_keys = keys }))
        w w' r h in
    let (same, t₁) = validated input.application_id asked keys w w₁ checking in
    let (u, w₂, replacing, end) =
      bind-ok (replace_permissions role.id input.application_id keys)
        (λ _. pure (record role { permission_keys = keys })) w₁ w' r rest in
    let (e, t₂) = pure-ok (record role { permission_keys = keys }) w₂ w' r end in
    let g =
      replace_permissions-Granted role.id input.application_id keys w₁ w₂ u
        (λ id. ground (arith, unique id, t₁)) replacing in
    record {
      kept_permissions = ground (arith, t₁, t₂, g.kept_permissions);
      others = λ other k. ground (arith, t₁, t₂, g.others other k);
      exactly = λ k. ground (arith, t₂, same, g.exactly k);
    }

replaced-Granted :
    (input : UpdateInput) (role : Role) (asked : List Bytes) (w w' : World) (r : Role)
    → UniquePermissions w.tables
    → replace_role_permissions input role asked w ≡ (ok r, w')
    → Granted role.id (unique_keys asked) [] w.tables w'.tables
unfolding replace_role_permissions
replaced-Granted input role asked w w' r unique h =
    let (b, w₁, reading, rest) =
      bind-ok (statement (actor_holds_application_role input.asker.actor_user_id role.id))
        (λ b. if b then fail self_permission_change else set_keys input role asked) w w' r h in
    let t = holder_read input.asker.actor_user_id role.id w w₁ b reading in
    let g =
      set_keys-Granted input role asked w₁ w' r (λ id. ground (arith, unique id, t))
        (unless_held b (set_keys input role asked) w₁ w' r rest) in
    record {
      kept_permissions = ground (arith, t, g.kept_permissions);
      others = λ other k. ground (arith, t, g.others other k);
      exactly = g.exactly;
    }

-- When Update succeeds for a request with keys, where ids of permissions are unique, the role has
-- exactly the keys of the request, and every other role has those that it had.
pub update-Regranted :
    (s : Service) (input : UpdateInput) (asked : List Bytes) (w w' : World) (r : Role)
    → UniquePermissions w.tables
    → input.permission_keys ≡ some asked
    → update s input w ≡ (ok r, w')
    → ((k : Bytes) → elem k (keys_of input.role_id w'.tables) ≡ elem k asked)
      × ((other : ℕ) → other ≢ input.role_id → keys_of other w'.tables ≡ keys_of other w.tables)
unfolding update update_within ◌>>=◌
update-Regranted s input asked w w' r unique some_keys h =
    let load = get_role_for_update input.application_id input.role_id in
    let (w₁, ran, left) =
      transaction-ok (load >>= update_role s input) w w' r (ground (arith, some_keys)) in
    let (role, w₂, loaded, rest) = bind-ok load (update_role s input) (begin w) w₁ r ran in
    let (known, t) =
      get_role_for_update-Known input.application_id input.role_id (begin w) w₂ role loaded in
    let applied = update_role-guards s input role w₂ w₁ r rest in
    let (with_keys, w₃, setting, end) =
      bind-ok (set_permissions input role input.permission_keys) (finish_update input role) w₂ w₁ r
        applied in
    let g =
      replaced-Granted input role asked w₂ w₃ with_keys (λ id. ground (arith, unique id, t))
        (ground (arith, some_keys, setting)) in
    let kept =
      Keeps-same {f = grants} (finish_update-Keeps input role with_keys) w₃ w₁ (ok r) end in
    (
      λ k. ground (arith, left, kept, known.same_id, g.exactly k, unique_keys_lem k asked),
      λ other apart.
          ground
            (arith, left, kept, known.same_id, t, g.others other (λ e. apart (e ∙ known.same_id))),
    )
