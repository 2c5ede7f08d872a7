-- ===== src/RoleGrid/Permitted.antt =====
-- rolegrid.go, ReplaceApplicationRolePermissions: the keys of a role before and after.
use identity_hub.Base.{
  Bytes, List, Option-cases, [], ap, arith, bytes_eq_sound, count_where, elem, find, find_sound,
  if◌then◌else◌, inl, inr, not, refl, select, some, ℕ, ◌==◌, ◌||◌, ◌∙◌, ◌∷◌, ◌≡◌, ◌≢◌, ◌≤◌,
}
use identity_hub.World.{
  Action, Permission, Result, RolePermission, Tables, World, bind-ok, fail, invalid_permission, ok,
  statement, statement-ok, ◌>>=◌,
}
use identity_hub.Sql.Grid.{
  add_application_role_permission, delete_application_role_permissions, is_key_of, keys_with_id,
  role_keys,
}
use identity_hub.RoleGrid.{add_permissions, replace_permissions}

-- The permission keys of a role.
abbrev pub keys_of : ℕ → Tables → List Bytes
keys_of role_id t = role_keys role_id t.role_permissions t.permissions

abbrev pub UniquePermissions : Tables → Type 0
UniquePermissions t = (id : ℕ) → count_where (λ (p : Permission). p.id == id) t.permissions ≤ 1

-- What a change of one role's permissions leaves alone, and which keys it adds to those of a list.
pub record Granted (role_id : ℕ) (keys own : List Bytes) (t t' : Tables) : Type 0 where
  pub kept_permissions : t'.permissions ≡ t.permissions
  pub others : (other : ℕ) → other ≢ role_id → keys_of other t' ≡ keys_of other t
  pub exactly : (k : Bytes) → elem k (keys_of role_id t') ≡ (elem k keys || elem k own)

dropped-other :
    (role_id other : ℕ) (rps : List RolePermission) (ps : List Permission)
    → other ≢ role_id
    → role_keys other (select (λ rp. not (rp.role_id == role_id)) rps) ps ≡ role_keys other rps ps
dropped-other role_id other [] ps h = refl
dropped-other role_id other (rp ∷ rps) ps h = ground (arith, dropped-other role_id other rps ps h)

dropped-own :
    (role_id : ℕ) (rps : List RolePermission) (ps : List Permission)
    → role_keys role_id (select (λ rp. not (rp.role_id == role_id)) rps) ps ≡ []
dropped-own role_id [] ps = refl
dropped-own role_id (rp ∷ rps) ps = ground (arith, dropped-own role_id rps ps)

none_with_id :
    (id : ℕ) (ps : List Permission) → count_where (λ p. p.id == id) ps ≡ 0 → keys_with_id id ps ≡ []
none_with_id id [] h = refl
none_with_id id (p ∷ ps) h = ground (arith, none_with_id id ps)

unique_key :
    (ps : List Permission) (app : ℕ) (key : Bytes) (p : Permission)
    → count_where (λ q. q.id == p.id) ps ≤ 1
    → find (is_key_of app key) ps ≡ some p
    → keys_with_id p.id ps ≡ p.key ∷ []
unique_key [] app key p h k = ground arith
unique_key (q ∷ ps) app key p h k = ground (arith, unique_key ps app key p, none_with_id p.id ps)

dropped-Granted :
    (role_id at : ℕ) (t t' : Tables) (u : Unit {0})
    → delete_application_role_permissions role_id at t ≡ (ok u, t')
    → Granted role_id [] [] t t'
unfolding delete_application_role_permissions
dropped-Granted role_id at t t' u h =
    let rps =
      ap {B = List RolePermission} (λ (r : Result (Unit {0}) × Tables). r.1.role_permissions) h in
    let ps = ap {B = List Permission} (λ (r : Result (Unit {0}) × Tables). r.1.permissions) h in
    record {
      kept_permissions = ground arith;
      others = λ other k.
          ground (arith, rps, ps, dropped-other role_id other t.role_permissions t.permissions k);
      exactly = λ n. ground (arith, rps, ps, dropped-own role_id t.role_permissions t.permissions);
    }

added-Granted :
    (role_id app at : ℕ) (key : Bytes) (t t' : Tables)
    → UniquePermissions t
    → add_application_role_permission role_id app key at t ≡ (ok 1, t')
    → Granted role_id (key ∷ []) (keys_of role_id t) t t'
unfolding add_application_role_permission
added-Granted role_id app at key t t' unique h =
    elim (Option-cases (find (is_key_of app key) t.permissions)) [
      | inl e ↦ ground arith
      | inr (p, e) ↦
          let only = unique_key t.permissions app key p (unique p.id) e in
          let named = find_sound (is_key_of app key) t.permissions p e in
          let rps : t'.role_permissions
              ≡ record { role_id = role_id; permission_id = p.id } ∷ t.role_permissions =
            ground arith in
          let ps : t'.permissions ≡ t.permissions = ground arith in
          record {
            kept_permissions = ps;
            others = λ other k. ground (arith, rps, ps);
            exactly = λ n. ground (arith, rps, ps, only, named, bytes_eq_sound p.key key);
          }
    ]

append-Granted :
    (role_id : ℕ) (key : Bytes) (keys : List Bytes) (t t₁ t' : Tables)
    → Granted role_id (key ∷ []) (keys_of role_id t) t t₁
    → Granted role_id keys (keys_of role_id t₁) t₁ t'
    → Granted role_id (key ∷ keys) (keys_of role_id t) t t'
append-Granted role_id key keys t t₁ t' a b = record {
  kept_permissions = b.kept_permissions ∙ a.kept_permissions;
  others = λ other k. b.others other k ∙ a.others other k;
  exactly = λ n. ground (arith, a.exactly n, b.exactly n);
}

refuse_unless :
    (rows : ℕ) (m : Action (Unit {0})) (w w' : World) (u : Unit {0})
    → (if not (rows == 1) then fail invalid_permission else m) w ≡ (ok u, w')
    → (rows ≡ 1) × (m w ≡ (ok u, w'))
unfolding ◌>>=◌
refuse_unless rows m w w' u h = (ground arith, ground arith)

add_permissions-Granted :
    (role_id app : ℕ) (keys : List Bytes) (w w' : World) (u : Unit {0})
    → UniquePermissions w.tables
    → add_permissions role_id app keys w ≡ (ok u, w')
    → Granted role_id keys (keys_of role_id w.tables) w.tables w'.tables
unfolding add_permissions ◌>>=◌
add_permissions-Granted role_id app [] w w' u unique h =
    let t : w'.tables ≡ w.tables = ground arith in
    record {
      kept_permissions = ground arith;
      others = λ other k. ground arith;
      exactly = λ n. ground arith;
    }
add_permissions-Granted role_id app (key ∷ keys) w w' u unique h =
    let (rows, w₁, added, rest) =
      bind-ok (statement (add_application_role_permission role_id app key))
        (λ rows.
          if not (rows == 1) then fail invalid_permission else add_permissions role_id app keys)
        w w' u h in
    let (one, more) = refuse_unless rows (add_permissions role_id app keys) w₁ w' u rest in
    let (ran, at) =
      statement-ok (add_application_role_permission role_id app key) w w₁ rows added in
    let first =
      added-Granted role_id app w.tx_now key w.tables w₁.tables unique
        (ran ∙ ap {B = Result ℕ × Tables} (λ (n : ℕ). (ok n, w₁.tables)) one) in
    append-Granted role_id key keys w.tables w₁.tables w'.tables first (
      add_permissions-Granted role_id app keys w₁ w' u
        (λ id. ground (arith, unique id, first.kept_permissions)) more)

pub replace_permissions-Granted :
    (role_id app : ℕ) (keys : List Bytes) (w w' : World) (u : Unit {0})
    → UniquePermissions w.tables
    → replace_permissions role_id app keys w ≡ (ok u, w')
    → Granted role_id keys [] w.tables w'.tables
unfolding replace_permissions
replace_permissions-Granted role_id app keys w w' u unique h =
    let (v, w₁, dropping, rest) =
      bind-ok (statement (delete_application_role_permissions role_id))
        (λ _. add_permissions role_id app keys) w w' u h in
    let (ran, at) = statement-ok (delete_application_role_permissions role_id) w w₁ v dropping in
    let first = dropped-Granted role_id w.tx_now w.tables w₁.tables v ran in
    let more =
      add_permissions-Granted role_id app keys w₁ w' u
        (λ id. ground (arith, unique id, first.kept_permissions)) rest in
    record {
      kept_permissions = more.kept_permissions ∙ first.kept_permissions;
      others = λ other k. more.others other k ∙ first.others other k;
      exactly = λ n. ground (arith, more.exactly n, first.exactly n);
    }
