-- ===== src/RoleGrid/Named.antt =====
-- rolegrid.go, Create: the names of new roles.
use identity_hub.Sql.Grid.{create_application_role, get_role_grid_application}
use identity_hub.World.{
  Action, Application, RoleRow, World, application_not_found, begin, bind-ok, fail,
  invalid_description, invalid_role_name, map_error, no_rows_as, ok, pure, pure-ok, role_created,
  statement, statement_with_id, transaction-ok, ◌>>=◌, ◌>>◌,
}
use identity_hub.Base.{
  Bool-cases, Bytes, List, Option-cases, [], ap, arith, bytes_eq, bytes_eq_sound, cut_prefix,
  cut_prefix_sound, false, find, if◌then◌else◌, inl, inr, is_some, ltb, none, not, refl, some, sym,
  true, ℕ, ◌++◌, ◌==◌, ◌||◌, ◌∙◌, ◌∷◌, ◌≡◌,
}
use identity_hub.Sql.Audit.{insert_audit_event}
use identity_hub.RoleGrid.{
  CreateInput, Role, Service, create, create_within, grid_audit, max_description,
  replace_permissions, store_role, valid_name, validate_permissions,
}
use identity_hub.Roles.{admin, application, before_dot, is_directory, user}

before_dot-some : (client slug : Bytes) → is_some (before_dot (client ++ b'.' ∷ slug)) ≡ true
before_dot-some [] slug = refl
before_dot-some (c ∷ cs) slug = elim (Option-cases (before_dot (cs ++ b'.' ∷ slug))) [
  | inl e ↦ ground (arith, before_dot-some cs slug)
  | inr (p, e) ↦ ground arith
]

before_dot-client :
    (client slug : Bytes)
    → before_dot client ≡ none
    → before_dot (client ++ b'.' ∷ slug) ≡ some client
before_dot-client [] slug h = refl
before_dot-client (c ∷ cs) slug h = elim (Option-cases (before_dot cs)) [
  | inl e ↦ ground (arith, before_dot-client cs slug)
  | inr (p, e) ↦ ground arith
]

dotted-not_directory : (role : Bytes) → is_some (before_dot role) ≡ true → is_directory role ≡ false
unfolding is_directory
dotted-not_directory role h = elim (Bool-cases (bytes_eq role admin || bytes_eq role user)) [
  | inr e ↦ e
  | inl e ↦ absurd (ground (arith, h, e, bytes_eq_sound role admin, bytes_eq_sound role user))
]

valid_name-split :
    (client name : Bytes)
    → valid_name client name ≡ true
    → (slug : Bytes) × (name ≡ client ++ b'.' ∷ slug)
unfolding valid_name
valid_name-split client name h = elim (Option-cases (cut_prefix (client ++ b'.' ∷ []) name)) [
  | inl e ↦ ground arith
  | inr (slug, e) ↦ (slug, cut_prefix_sound (client ++ b'.' ∷ []) name slug e ∙ regroup client slug)
]
  where
    regroup : (xs ys : Bytes) → (xs ++ b'.' ∷ []) ++ ys ≡ xs ++ b'.' ∷ ys
    regroup [] ys = refl
    regroup (x ∷ xs) ys = ap (λ zs. x ∷ zs) (regroup xs ys)

application_found :
    (id : ℕ) (w w' : World) (app : Application)
    → map_error (no_rows_as application_not_found) (statement (get_role_grid_application id)) w
      ≡ (ok app, w')
    → (find (λ (a : Application). a.id == id) w.tables.applications ≡ some app)
      × (w'.tables ≡ w.tables)
unfolding get_role_grid_application ◌>>=◌
application_found id w w' app h =
    elim (Option-cases (find (λ (a : Application). a.id == id) w.tables.applications)) [
      | inl e ↦ ground arith
      | inr (a, e) ↦ (ground arith, ground arith)
    ]

-- The end of Create after the new row.
abbrev finish_role : CreateInput → List Bytes → RoleRow → Action Role
finish_role input keys row = do
  replace_permissions row.id input.application_id keys
  statement (insert_audit_event (grid_audit role_created input.asker row.id))
  pure (record {
    id = row.id;
    application_id = input.application_id;
    name = row.name;
    description = row.description;
    permission_keys = keys;
    is_system = row.is_system;
    assigned_count = 0;
  })

finish_role-name :
    (input : CreateInput) (keys : List Bytes) (row : RoleRow) (w w' : World) (role : Role)
    → finish_role input keys row w ≡ (ok role, w')
    → role.name ≡ row.name
finish_role-name input keys row w w' role h =
    let made : Role = record {
      id = row.id;
      application_id = input.application_id;
      name = row.name;
      description = row.description;
      permission_keys = keys;
      is_system = row.is_system;
      assigned_count = 0;
    } in
    let audit = statement (insert_audit_event (grid_audit role_created input.asker row.id)) in
    let (u, w₁, replacing, rest) =
      bind-ok (replace_permissions row.id input.application_id keys) (λ _. audit >>= λ _. pure made)
        w w' role h in
    let (v, w₂, auditing, end) = bind-ok audit (λ _. pure made) w₁ w' role rest in
    let (e, t) = pure-ok made w₂ w' role end in ap {B = Bytes} (λ (r : Role). r.name) (sym e)

abbrev insert_role : CreateInput → Action RoleRow
insert_role input =
    statement_with_id (create_application_role input.application_id input.name input.description)

inserted_name :
    (input : CreateInput) (w₁ w₂ : World) (row : RoleRow)
    → insert_role input w₁ ≡ (ok row, w₂)
    → row.name ≡ input.name
unfolding ◌>>=◌ create_application_role
inserted_name input w₁ w₂ row h = ground arith

store_role-name :
    (input : CreateInput) (w w' : World) (role : Role)
    → store_role input w ≡ (ok role, w')
    → role.name ≡ input.name
unfolding store_role
store_role-name input w w' role h =
    let (keys, w₁, checked, rest) =
      bind-ok (validate_permissions input.application_id input.permission_keys)
        (λ keys. insert_role input >>= finish_role input keys) w w' role h in
    let (row, w₂, inserted, end) =
      bind-ok (insert_role input) (finish_role input keys) w₁ w' role rest in
    finish_role-name input keys row w₂ w' role end ∙ inserted_name input w₁ w₂ row inserted

-- The checks of Create between the application and the new row.
abbrev check_request : Service → CreateInput → Application → Action Role
check_request s input app =
    if not (valid_name app.client_id input.name)
    then fail invalid_role_name
    else if ltb max_description (s.rune_count input.description)
    then fail invalid_description
    else store_role input

check_request-ok :
    (s : Service) (input : CreateInput) (app : Application) (v v' : World) (role : Role)
    → check_request s input app v ≡ (ok role, v')
    → (valid_name app.client_id input.name ≡ true) × (store_role input v ≡ (ok role, v'))
unfolding ◌>>=◌
check_request-ok s input app v v' role k = (ground arith, ground arith)

created_name :
    (s : Service) (input : CreateInput) (w w' : World) (role : Role)
    → create s input w ≡ (ok role, w')
    → (a : Application) × (find (λ q. q.id == input.application_id) w.tables.applications ≡ some a)
      × (slug : Bytes) × (role.name ≡ a.client_id ++ b'.' ∷ slug)
unfolding create create_within
created_name s input w w' role h =
    let (w₁, ran, left) = transaction-ok (create_within s input) w w' role h in
    let (app, w₂, got, rest) =
      bind-ok
        (map_error (no_rows_as application_not_found)
          (statement (get_role_grid_application input.application_id)))
        (check_request s input) (begin w) w₁ role ran in
    let (found, same) = application_found input.application_id (begin w) w₂ app got in
    let (valid, stored) = check_request-ok s input app w₂ w₁ role rest in
    let (slug, shape) = valid_name-split app.client_id input.name valid in
    (app, found, slug, store_role-name input w₂ w₁ role stored ∙ shape)

-- A role that Create makes is no directory role.
pub created-not_directory :
    (s : Service) (input : CreateInput) (w w' : World) (role : Role)
    → create s input w ≡ (ok role, w')
    → is_directory role.name ≡ false
created-not_directory s input w w' role h =
    let (app, found, slug, named) = created_name s input w w' role h in
    dotted-not_directory role.name (ground (arith, named, before_dot-some app.client_id slug))

-- Where the application's client id has no dot, a role that Create makes is no directory role, and it
-- is a role of the application that was asked for.
pub create-Named :
    (s : Service) (input : CreateInput) (w w' : World) (role : Role)
    → ((a : Application)
        → find (λ q. q.id == input.application_id) w.tables.applications ≡ some a
        → before_dot a.client_id ≡ none)
    → create s input w ≡ (ok role, w')
    → (is_directory role.name ≡ false)
      × ((a : Application) × (find (λ q. q.id == input.application_id) w.tables.applications
            ≡ some a)
          × (application role.name ≡ a.client_id))
unfolding application
create-Named s input w w' role dotless h =
    let (app, found, slug, named) = created_name s input w w' role h in
    let outside = created-not_directory s input w w' role h in
    let dotted = before_dot-client app.client_id slug (dotless app found) in
    (outside, (app, found, ground (arith, outside, named, dotted)))
