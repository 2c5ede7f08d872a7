-- ===== src/RoleGrid/Load.antt =====
-- rolegrid.go: the role that Update and Delete lock and read.
use identity_hub.Base.{
  Option-cases, arith, count_where, find, find_sound, inl, inr, some, ℕ, ◌∙◌, ◌≡◌,
}
use identity_hub.World.{
  RoleRow, Tables, World, bind-ok, map_error, no_rows_as, ok, pure, pure-ok, role_not_found,
  statement, ◌>>=◌,
}
use identity_hub.Sql.Grid.{
  Counted, get_application_role, is_assigned, is_role_of, lock_application_role,
}
use identity_hub.RoleGrid.{Role, get_role_for_update, role_of}

role_locked :
    (app id : ℕ) (w w' : World) (n : ℕ)
    → map_error (no_rows_as role_not_found) (statement (lock_application_role app id)) w
      ≡ (ok n, w')
    → w'.tables ≡ w.tables
unfolding lock_application_role ◌>>=◌
role_locked app id w w' n h = elim (Option-cases (find (is_role_of app id) w.tables.roles)) [
  | inl e ↦ ground arith
  | inr (r, e) ↦ ground arith
]

role_counted :
    (app id : ℕ) (w w' : World) (c : Counted)
    → map_error (no_rows_as role_not_found) (statement (get_application_role app id)) w ≡ (ok c, w')
    → (find (is_role_of app id) w.tables.roles ≡ some c.row)
      × (c.assigned_count ≡ count_where (is_assigned c.row.id) w.tables.user_roles)
      × (w'.tables ≡ w.tables)
unfolding get_application_role ◌>>=◌
role_counted app id w w' c h = elim (Option-cases (find (is_role_of app id) w.tables.roles)) [
  | inl e ↦ ground arith
  | inr (r, e) ↦ (ground arith, ground arith, ground arith)
]

-- What is known of the role.
pub record Known (app id : ℕ) (t : Tables) (role : Role) : Type 0 where
  pub row : RoleRow
  pub found : find (is_role_of app id) t.roles ≡ some row
  pub same_id : role.id ≡ id
  pub same_system : role.is_system ≡ row.is_system
  pub counts : role.assigned_count ≡ count_where (is_assigned id) t.user_roles

pub get_role_for_update-Known :
    (app id : ℕ) (w w' : World) (role : Role)
    → get_role_for_update app id w ≡ (ok role, w')
    → Known app id w.tables role × (w'.tables ≡ w.tables)
unfolding get_role_for_update
get_role_for_update-Known app id w w' role h =
    let (n, w₁, lock, rest) =
      bind-ok (map_error (no_rows_as role_not_found) (statement (lock_application_role app id)))
        (λ _.
          map_error (no_rows_as role_not_found) (statement (get_application_role app id)) >>= λ c.
          pure (role_of app c))
        w w' role h in
    let t₁ = role_locked app id w w₁ n lock in
    let (c, w₂, count, end) =
      bind-ok (map_error (no_rows_as role_not_found) (statement (get_application_role app id)))
        (λ c. pure (role_of app c)) w₁ w' role rest in
    let (found, assigned, t₂) = role_counted app id w₁ w₂ c count in
    let (e, t₃) = pure-ok (role_of app c) w₂ w' role end in
    let hit = find_sound (is_role_of app id) w₁.tables.roles c.row found in
    (
      record {
        row = c.row;
        found = ground (arith, found, t₁);
        same_id = ground (arith, e, hit);
        same_system = ground (arith, e);
        counts = ground (arith, e, hit, assigned, t₁);
      },
      t₃ ∙ t₂ ∙ t₁,
    )
