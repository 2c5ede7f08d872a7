-- ===== src/Admin/Grants.antt =====
-- admin.go, ReplaceRoles: the names that a user holds before and after.
use identity_hub.Sql.Directory.{add_user_role, delete_user_roles}
use identity_hub.Base.{
  Bytes, List, Option-cases, [], ap, arith, bytes_eq, bytes_eq_sound, count_where, elem, find,
  find_sound, if◌then◌else◌, inl, inr, not, refl, select, some, ℕ, ◌==◌, ◌||◌, ◌∙◌, ◌∷◌, ◌≡◌, ◌≢◌,
  ◌≤◌,
}
use identity_hub.World.{
  Action, Result, RoleRow, Tables, UserRole, World, bind-ok, fail, ok, statement, statement-ok,
  storage, ◌>>=◌,
}
use identity_hub.Sql.Users.{role_names}
use identity_hub.Admin.{add_roles, replace_roles}

-- The names of the roles of a user.
abbrev pub held : ℕ → Tables → List Bytes
held user_id t = role_names user_id t.user_roles t.roles

-- What a change of one user's roles leaves alone, and which names it adds to those of a list.
pub record Granted (user_id : ℕ) (names : List Bytes) (own : List Bytes) (t t' : Tables)
    : Type 0 where
  pub kept_users : t'.users ≡ t.users
  pub kept_roles : t'.roles ≡ t.roles
  pub others : (other : ℕ) → other ≢ user_id → held other t' ≡ held other t
  pub exactly : (n : Bytes) → elem n (held user_id t') ≡ (elem n names || elem n own)

dropped-other :
    (user_id other : ℕ) (urs : List UserRole) (rs : List RoleRow)
    → other ≢ user_id
    → role_names other (select (λ ur. not (ur.user_id == user_id)) urs) rs ≡ role_names other urs rs
dropped-other user_id other [] rs h = refl
dropped-other user_id other (ur ∷ urs) rs h = ground (arith, dropped-other user_id other urs rs h)

dropped-own :
    (user_id : ℕ) (urs : List UserRole) (rs : List RoleRow)
    → role_names user_id (select (λ ur. not (ur.user_id == user_id)) urs) rs ≡ []
dropped-own user_id [] rs = refl
dropped-own user_id (ur ∷ urs) rs = ground (arith, dropped-own user_id urs rs)

none_with_id :
    (id : ℕ) (rs : List RoleRow)
    → count_where (λ r. r.id == id) rs ≡ 0
    → select (λ r. r.id == id) rs ≡ []
none_with_id id [] h = refl
none_with_id id (r ∷ rs) h = ground (arith, none_with_id id rs)

unique_role :
    (rs : List RoleRow) (name : Bytes) (r : RoleRow)
    → count_where (λ q. q.id == r.id) rs ≤ 1
    → find (λ q. bytes_eq q.name name) rs ≡ some r
    → select (λ q. q.id == r.id) rs ≡ r ∷ []
unique_role [] name r h k = ground arith
unique_role (q ∷ rs) name r h k = ground (arith, unique_role rs name r, none_with_id r.id rs)

abbrev pub UniqueIds : Tables → Type 0
UniqueIds t = (id : ℕ) → count_where (λ (r : RoleRow). r.id == id) t.roles ≤ 1

delete_user_roles-Granted :
    (user_id at : ℕ) (t t' : Tables) (u : Unit {0})
    → delete_user_roles user_id at t ≡ (ok u, t')
    → Granted user_id [] [] t t'
unfolding delete_user_roles
delete_user_roles-Granted user_id at t t' u h =
    let urs = ap {B = List UserRole} (λ (r : Result (Unit {0}) × Tables). r.1.user_roles) h in
    let rs = ap {B = List RoleRow} (λ (r : Result (Unit {0}) × Tables). r.1.roles) h in
    record {
      kept_users = ground arith;
      kept_roles = ground arith;
      others =
          λ other k. ground (arith, urs, rs, dropped-other user_id other t.user_roles t.roles k);
      exactly = λ n. ground (arith, urs, rs, dropped-own user_id t.user_roles t.roles);
    }

add_user_role-Granted :
    (user_id granted_by at : ℕ) (name : Bytes) (t t' : Tables)
    → UniqueIds t
    → add_user_role user_id name granted_by at t ≡ (ok 1, t')
    → Granted user_id (name ∷ []) (held user_id t) t t'
unfolding add_user_role
add_user_role-Granted user_id granted_by at name t t' unique h =
    elim (Option-cases (find (λ (r : RoleRow). bytes_eq r.name name) t.roles)) [
      | inl e ↦ ground arith
      | inr (r, e) ↦
          let only = unique_role t.roles name r (unique r.id) e in
          let named = find_sound (λ (q : RoleRow). bytes_eq q.name name) t.roles r e in
          let urs : t'.user_roles
              ≡ record { user_id = user_id; role_id = r.id; granted_by = some granted_by }
                ∷ t.user_roles =
            ground arith in
          let rs : t'.roles ≡ t.roles = ground arith in
          record {
            kept_users = ground arith;
            kept_roles = rs;
            others = λ other k. ground (arith, urs, rs);
            exactly = λ n. ground (arith, urs, rs, only, bytes_eq_sound r.name name named);
          }
    ]

append-Granted :
    (user_id : ℕ) (name : Bytes) (names : List Bytes) (t t₁ t' : Tables)
    → Granted user_id (name ∷ []) (held user_id t) t t₁
    → Granted user_id names (held user_id t₁) t₁ t'
    → Granted user_id (name ∷ names) (held user_id t) t t'
append-Granted user_id name names t t₁ t' a b = record {
  kept_users = b.kept_users ∙ a.kept_users;
  kept_roles = b.kept_roles ∙ a.kept_roles;
  others = λ other k. b.others other k ∙ a.others other k;
  exactly = λ n. ground (arith, a.exactly n, b.exactly n);
}

refuse_unless :
    (rows : ℕ) (m : Action (Unit {0})) (w w' : World) (u : Unit {0})
    → (if not (rows == 1) then fail storage else m) w ≡ (ok u, w')
    → (rows ≡ 1) × (m w ≡ (ok u, w'))
unfolding ◌>>=◌
refuse_unless rows m w w' u h = (ground arith, ground arith)

add_roles-Granted :
    (user_id granted_by : ℕ) (names : List Bytes) (w w' : World) (u : Unit {0})
    → UniqueIds w.tables
    → add_roles user_id granted_by names w ≡ (ok u, w')
    → Granted user_id names (held user_id w.tables) w.tables w'.tables
unfolding add_roles ◌>>=◌
add_roles-Granted user_id granted_by [] w w' u unique h =
    let t : w'.tables ≡ w.tables = ground arith in
    record {
      kept_users = ground arith;
      kept_roles = ground arith;
      others = λ other k. ground arith;
      exactly = λ n. ground arith;
    }
add_roles-Granted user_id granted_by (name ∷ names) w w' u unique h =
    let (rows, w₁, added, rest) =
      bind-ok (statement (add_user_role user_id name granted_by))
        (λ rows. if not (rows == 1) then fail storage else add_roles user_id granted_by names) w w'
        u h in
    let (one, more) = refuse_unless rows (add_roles user_id granted_by names) w₁ w' u rest in
    let (ran, at) = statement-ok (add_user_role user_id name granted_by) w w₁ rows added in
    let first =
      add_user_role-Granted user_id granted_by w.tx_now name w.tables w₁.tables unique
        (ran ∙ ap {B = Result ℕ × Tables} (λ (n : ℕ). (ok n, w₁.tables)) one) in
    append-Granted user_id name names w.tables w₁.tables w'.tables first (
      add_roles-Granted user_id granted_by names w₁ w' u
        (λ id. ground (arith, unique id, first.kept_roles)) more)

pub replace_roles-Granted :
    (user_id granted_by : ℕ) (names : List Bytes) (w w' : World) (u : Unit {0})
    → UniqueIds w.tables
    → replace_roles user_id names granted_by w ≡ (ok u, w')
    → Granted user_id names [] w.tables w'.tables
unfolding replace_roles
replace_roles-Granted user_id granted_by names w w' u unique h =
    let (v, w₁, dropped, rest) =
      bind-ok (statement (delete_user_roles user_id)) (λ _. add_roles user_id granted_by names) w w'
        u h in
    let (ran, at) = statement-ok (delete_user_roles user_id) w w₁ v dropped in
    let first = delete_user_roles-Granted user_id w.tx_now w.tables w₁.tables v ran in
    let more =
      add_roles-Granted user_id granted_by names w₁ w' u
        (λ id. ground (arith, unique id, first.kept_roles)) rest in
    record {
      kept_users = more.kept_users ∙ first.kept_users;
      kept_roles = more.kept_roles ∙ first.kept_roles;
      others = λ other k. more.others other k ∙ first.others other k;
      exactly = λ n. ground (arith, more.exactly n, first.exactly n);
    }
