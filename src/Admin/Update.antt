-- ===== src/Admin/Update.antt =====
-- admin.go, applyUserUpdate: the accounts and their roles before and after.
use identity_hub.Base.{
  Bool-cases, Bytes, List, Option, Option-cases, ap, arith, codes, elem, find, if◌then◌else◌, inl,
  inr, is_some, leb, none, not, refl, some, subst, sym, true, update_where, ℕ, ◌&&◌, ◌==◌, ◌||◌,
  ◌∙◌, ◌≡◌, ◌≢◌, ◌≤◌,
}
use identity_hub.World.{
  Action, RoleRow, Tables, User, UserRole, UserStatus, World, bind-ok, disabled, done, ok, pure,
  pure-ok, role_changed, statement, statement-ok, status_eq, user_disabled, ◌>>=◌, ◌>>◌,
}
use identity_hub.World.Keeps.{Keeps, Keeps-same, bind-Keeps, if-Keeps, pure-Keeps, statement-Keeps}
use identity_hub.Sql.Users.{list_roles_for_user}
use identity_hub.Sql.Audit.{AuditEvent, insert_audit_event}
use identity_hub.Sql.Directory.{set_status, update_admin_user_status}
use identity_hub.Admin.Grants.{UniqueIds, held, replace_roles-Granted}
use identity_hub.Admin.Load.{Seen, lock_and_load_target-Seen, validate_requested_roles-same}
use identity_hub.Admin.{
  Account, Loaded, UpdateInput, admin_audit, apply_role_change, apply_status_change,
  apply_to_target, apply_user_update, lock_and_load_target, new_roles_of, or_none, replace_roles,
  same_roles, update_user_row, validate_requested_roles, would_remove,
}

-- The tables that decide who is an administrator.
abbrev pub accounts : Tables → List User × List RoleRow × List UserRole
accounts t = (t.users, t.roles, t.user_roles)

pub audit-Keeps : (e : AuditEvent) → Keeps accounts (statement (insert_audit_event e))
unfolding insert_audit_event
audit-Keeps e = statement-Keeps (insert_audit_event e) (λ at t. refl)

list_roles-Keeps : (user_id : ℕ) → Keeps accounts (statement (list_roles_for_user user_id))
unfolding list_roles_for_user
list_roles-Keeps user_id = statement-Keeps (list_roles_for_user user_id) (λ at t. refl)

-- The rows of the accounts: unchanged, or one with a new status.
pub data Rows (user_id : ℕ) (new : Option UserStatus) (us us' : List User) : Type 0 where
  kept : us' ≡ us → Rows user_id new us us'
  changed :
      (s : UserStatus)
      → new ≡ some s
      → us' ≡ update_where (λ (q : User). q.id == user_id) (set_status s) us
      → Rows user_id new us us'

row_written :
    (user_id at : ℕ) (s : UserStatus) (t t' : Tables) (u : User)
    → update_admin_user_status user_id s at t ≡ (ok u, t')
    → (t'.users ≡ update_where (λ (q : User). q.id == user_id) (set_status s) t.users)
      × (t'.roles ≡ t.roles)
      × (t'.user_roles ≡ t.user_roles)
unfolding update_admin_user_status
row_written user_id at s t t' u h =
    elim (Option-cases (find (λ (q : User). q.id == user_id) t.users)) [
      | inl e ↦ ground arith
      | inr (q, e) ↦ (ground arith, ground arith, ground arith)
    ]

-- The action that follows the write of a status.
abbrev audit_disabled : UpdateInput → UserStatus → Account → Action Account
audit_disabled input s updated = do
  if status_eq s disabled
      then statement (insert_audit_event (admin_audit user_disabled none input))
      else done
  pure updated

audit_disabled-Keeps :
    (input : UpdateInput) (s : UserStatus) (updated : Account)
    → Keeps accounts (audit_disabled input s updated)
unfolding ◌>>=◌
audit_disabled-Keeps input s updated =
    bind-Keeps
      (if-Keeps (status_eq s disabled) (audit-Keeps (admin_audit user_disabled none input))
        (pure-Keeps tt))
      (λ u. pure-Keeps updated)

abbrev with_roles : ℕ → User → Action Account
with_roles user_id row = do
  roles ← statement (list_roles_for_user user_id)
  pure (record { row = row; roles = roles })

with_roles-Keeps : (user_id : ℕ) (row : User) → Keeps accounts (with_roles user_id row)
with_roles-Keeps user_id row =
    bind-Keeps (list_roles-Keeps user_id)
      (λ roles. pure-Keeps (record { row = row; roles = roles }))

status_written :
    (input : UpdateInput) (s : UserStatus) (w w' : World) (a : Account)
    → (update_user_row input.user_id s >>= audit_disabled input s) w ≡ (ok a, w')
    → accounts w'.tables ≡ (
      update_where (λ (q : User). q.id == input.user_id) (set_status s) w.tables.users,
      w.tables.roles,
      w.tables.user_roles,
    )
unfolding update_user_row
status_written input s w w' a h =
    let (b, w₁, wrote, audited) =
      bind-ok (update_user_row input.user_id s) (audit_disabled input s) w w' a h in
    let (u, w₂, updated, listed) =
      bind-ok (statement (update_admin_user_status input.user_id s)) (with_roles input.user_id) w w₁
        b wrote in
    let (ran, at) = statement-ok (update_admin_user_status input.user_id s) w w₂ u updated in
    let (us, rs, urs) = row_written input.user_id w.tx_now s w.tables w₂.tables u ran in
    Keeps-same {f = accounts} (audit_disabled-Keeps input s b) w₁ w' (ok a) audited
    ∙ Keeps-same {f = accounts} (with_roles-Keeps input.user_id u) w₂ w₁ (ok b) listed
    ∙ ground (arith, us, rs, urs)

-- What an update may have done to the accounts' rows, with the roles as they were.
pub status_step :
    (input : UpdateInput) (new : Option UserStatus) (target : Account) (w w' : World) (a : Account)
    → apply_status_change input new target w ≡ (ok a, w')
    → (w'.tables.roles ≡ w.tables.roles)
      × (w'.tables.user_roles ≡ w.tables.user_roles)
      × Rows input.user_id new w.tables.users w'.tables.users
unfolding apply_status_change ◌>>=◌
status_step input none target w w' a h = (ground arith, ground arith, kept (ground arith))
status_step input (some s) target w w' a h = elim (Bool-cases (status_eq s target.row.status)) [
  | inl e ↦ (ground arith, ground arith, kept (ground arith))
  | inr e ↦
      let done = status_written input s w w' a (ground arith) in
      (ground (arith, done), ground (arith, done), changed s refl (ground (arith, done)))
]

-- The roles of the user: untouched, or those of a list.
pub data Grants (input : UpdateInput) (current wanted : List Bytes) (t t' : Tables) : Type 0 where
  untouched :
      t'.user_roles ≡ t.user_roles
      → (is_some input.roles ≡ true → same_roles current wanted ≡ true)
      → Grants input current wanted t t'
  replaced :
      is_some input.roles ≡ true
      → ((other : ℕ) → other ≢ input.user_id → held other t' ≡ held other t)
      → ((n : Bytes) → elem n (held input.user_id t') ≡ elem n wanted)
      → Grants input current wanted t t'

role_step :
    (input : UpdateInput) (current wanted : List Bytes) (w w' : World) (u : Unit {0})
    → UniqueIds w.tables
    → apply_role_change input current wanted w ≡ (ok u, w')
    → (w'.tables.users ≡ w.tables.users)
      × (w'.tables.roles ≡ w.tables.roles)
      × Grants input current wanted w.tables w'.tables
unfolding apply_role_change ◌>>=◌
role_step input current wanted w w' u unique h =
    elim (Bool-cases (not (is_some input.roles) || same_roles current wanted)) [
      | inl e ↦ (ground arith, ground arith, untouched (ground arith) (λ k. ground arith))
      | inr e ↦
          let (v, w₁, replacing, audited) =
            bind-ok (replace_roles input.user_id wanted input.actor_user_id)
              (λ _. statement (insert_audit_event (admin_audit role_changed none input))) w w' u
              (ground arith) in
          let g =
            replace_roles-Granted input.user_id input.actor_user_id wanted w w₁ v unique
              replacing in
          let same =
            Keeps-same {f = accounts} (audit-Keeps (admin_audit role_changed none input)) w₁ w'
              (ok u) audited in
          (
            ground (arith, same, g.kept_users),
            ground (arith, same, g.kept_roles),
            replaced (ground arith) (λ other k. ground (arith, same, g.others other k))
                (λ n. ground (arith, same, g.exactly n)),
          )
    ]

-- An update that succeeds: what it saw, and what it left.
pub record Updated (input : UpdateInput) (new : Option UserStatus) (l : Loaded) (t t' : Tables)
    : Type 0 where
  pub seen : Seen input.user_id t l
  pub guarded : would_remove input new l ≡ true → 2 ≤ l.active_admins
  pub rows : Rows input.user_id new t.users t'.users
  pub kept_roles : t'.roles ≡ t.roles
  pub grants : Grants input l.current_roles (new_roles_of input l.current_roles) t t'

moved-Grants :
    (input : UpdateInput) (current wanted : List Bytes) (t t₁ t₂ t' : Tables)
    → t₁.roles ≡ t.roles
    → t₁.user_roles ≡ t.user_roles
    → t' ≡ t₂
    → Grants input current wanted t₁ t₂
    → Grants input current wanted t t'
moved-Grants input current wanted t t₁ t₂ t' rs urs e (untouched same asked) =
    untouched (ground (arith, rs, urs, e, same)) asked
moved-Grants input current wanted t t₁ t₂ t' rs urs e (replaced asked others exactly) =
    replaced asked (λ other k. ground (arith, rs, urs, e, others other k))
      (λ n. ground (arith, rs, urs, e, exactly n))

abbrev account_with : List Bytes → Account → Account
account_with names a = record a { roles = names }

apply_to_target-Updated :
    (input : UpdateInput) (new : Option UserStatus) (l : Loaded) (w w' : World) (a : Account)
    → UniqueIds w.tables
    → Seen input.user_id w.tables l
    → apply_to_target input new l w ≡ (ok a, w')
    → Updated input new l w.tables w'.tables
unfolding apply_to_target ◌>>=◌
apply_to_target-Updated input new l w w' a unique seen h =
    elim (Bool-cases (would_remove input new l && leb l.active_admins 1)) [
      | inl e ↦ ground arith
      | inr e ↦
          let wanted = new_roles_of input l.current_roles in
          let (b, w₁, first, rest) =
            bind-ok (apply_status_change input new l.target)
              (λ b. apply_role_change input l.current_roles wanted >>= λ _.
                pure (account_with wanted b))
              w w' a (ground arith) in
          let (u, w₂, second, end) =
            bind-ok (apply_role_change input l.current_roles wanted)
              (λ _. pure (account_with wanted b)) w₁ w' a rest in
          let (same, t) = pure-ok (account_with wanted b) w₂ w' a end in
          let (rs, urs, rows) = status_step input new l.target w w₁ b first in
          let (us₂, rs₂, grants) =
            role_step input l.current_roles wanted w₁ w₂ u (λ id. ground (arith, unique id, rs))
              second in
          record {
            seen = seen;
            guarded = λ k. ground (arith, e, k);
            rows =
                subst (λ us. Rows input.user_id new w.tables.users us)
                  (sym us₂ ∙ ap {B = List User} (λ (z : Tables). z.users) (sym t)) rows;
            kept_roles = ground (arith, t, rs₂, rs);
            grants =
                moved-Grants input l.current_roles wanted w.tables w₁.tables w₂.tables w'.tables rs
                  urs t grants;
          }
    ]

-- applyUserUpdate
pub apply_user_update-Updated :
    (input : UpdateInput) (new : Option UserStatus) (w w' : World) (a : Account)
    → UniqueIds w.tables
    → apply_user_update input new w ≡ (ok a, w')
    → (l : Loaded) × Updated input new l w.tables w'.tables
      × (is_some input.roles ≡ true → elem (codes "user") (or_none input.roles) ≡ true)
unfolding apply_user_update
apply_user_update-Updated input new w w' a unique h =
    let (u, w₁, checked, rest) =
      bind-ok (validate_requested_roles input.roles)
        (λ _. lock_and_load_target input.user_id >>= apply_to_target input new) w w' a h in
    let (l, w₂, loaded, last) =
      bind-ok (lock_and_load_target input.user_id) (apply_to_target input new) w₁ w' a rest in
    let (t₁, base) = validate_requested_roles-same input.roles w w₁ u checked in
    let (seen, t₂) = lock_and_load_target-Seen input.user_id w₁ w₂ l loaded in
    let same : w₂.tables ≡ w.tables = t₂ ∙ t₁ in
    let there = subst (λ t. Seen input.user_id t l) (t₁ ∙ sym same) seen in
    (
      l,
      subst (λ t. Updated input new l t w'.tables) same
          (apply_to_target-Updated input new l w₂ w' a (λ id. ground (arith, unique id, same)) there
            last),
      base,
    )
