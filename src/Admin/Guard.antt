-- ===== src/Admin/Guard.antt =====
-- admin.go, UpdateUser: from a request to applyUserUpdate.
use identity_hub.Sql.Audit.{insert_audit_event}
use identity_hub.Base.{
  Bool-cases, Bytes, List, Option, ap, arith, codes, elem, false, inl, inr, is_some, none, not,
  refl, some, subst, sym, true, ◌==◌, ◌||◌, ◌∙◌, ◌≡◌,
}
use identity_hub.World.{
  Action, AuditAction, Error, Result, Result-cases, RoleRow, Tables, User, UserRole, UserStatus,
  World, begin, continue, cross_organization_role, done, err, is_ok, ok, role_assignment_rejected,
  self_role_assignment, statement, transaction, transaction-err, transaction-ok, ◌>>=◌,
}
use identity_hub.World.Keeps.{
  Keeps, bind-Keeps, fail-Keeps, if-Keeps, pure-Keeps, transaction-Keeps,
}
use identity_hub.Admin.Grants.{UniqueIds}
use identity_hub.Admin.Update.{Updated, accounts, apply_user_update-Updated, audit-Keeps}
use identity_hub.Admin.{
  Account, Loaded, UpdateInput, admin_audit, after_update, apply_user_update, audit_alone,
  audit_organization_mismatch, is_cross_organization, or_none, reject_self_role_assignment,
  update_user, update_valid, validate_status_change,
}

done-Keeps : Keeps accounts done
unfolding ◌>>=◌
done-Keeps = pure-Keeps tt

audit_alone-Keeps :
    (action : AuditAction) (reason : Option Bytes) (input : UpdateInput)
    → Keeps accounts (audit_alone action reason input)
audit_alone-Keeps action reason input =
    transaction-Keeps (statement (insert_audit_event (admin_audit action reason input)))
      (audit-Keeps (admin_audit action reason input))

reject_self-Keeps : (input : UpdateInput) → Keeps accounts (reject_self_role_assignment input)
unfolding reject_self_role_assignment
reject_self-Keeps input =
    if-Keeps (not (is_some input.roles) || not (input.actor_user_id == input.user_id)) done-Keeps (
      bind-Keeps (audit_alone-Keeps role_assignment_rejected none input)
        (λ _. fail-Keeps self_role_assignment))

-- What an update leaves: the accounts as they were, or a success that Updated describes.
pub data Outcome (input : UpdateInput) (w : World) (r : Result Account × World) : Type 0 where
  unmoved : is_ok r.0 ≡ false → accounts r.1.tables ≡ accounts w.tables → Outcome input w r
  moved :
      (new : Option UserStatus) (l : Loaded)
      → is_ok r.0 ≡ true
      → validate_status_change input ≡ ok new
      → Updated input new l w.tables r.1.tables
      → (is_some input.roles ≡ true → elem (codes "user") (or_none input.roles) ≡ true)
      → Outcome input w r

after_update-same :
    (input : UpdateInput) (e : Error) (w : World)
    → accounts (after_update input (err e, w)).1.tables ≡ accounts w.tables
unfolding audit_organization_mismatch
after_update-same input e w = elim (Bool-cases (is_cross_organization e)) [
  | inl k ↦ ground (
    arith,
    (bind-Keeps {f = accounts}
          (audit_alone-Keeps role_assignment_rejected (some (codes "organization_mismatch")) input)
          (λ _. fail-Keeps {A = Account} cross_organization_role)).at
        w,
  )
  | inr k ↦ ground arith
]

after_update-fails :
    (input : UpdateInput) (e : Error) (w : World) → is_ok (after_update input (err e, w)).0 ≡ false
unfolding audit_organization_mismatch ◌>>=◌
after_update-fails input e w =
    elim (Result-cases
      (audit_alone role_assignment_rejected (some (codes "organization_mismatch")) input w).0) [
        | inl (u, f) ↦ ground arith
        | inr (x, f) ↦ ground arith
      ]

settled :
    (input : UpdateInput) (new : Option UserStatus) (w : World) (r : Result Account × World)
    → validate_status_change input ≡ ok new
    → ((a : Account) (w' : World)
        → r ≡ (ok a, w')
        → (l : Loaded) × Updated input new l w.tables w'.tables
          × (is_some input.roles ≡ true → elem (codes "user") (or_none input.roles) ≡ true))
    → ((e : Error) → r.0 ≡ err e → r.1.tables ≡ w.tables)
    → Outcome input w (after_update input r)
settled input new w (ok a, w') v f g = let (l, u, b) = f a w' refl in moved new l refl v u b
settled input new w (err e, w') v f g = unmoved (after_update-fails input e w') (
    after_update-same input e w'
    ∙ ap {B = List User × List RoleRow × List UserRole} accounts (g e refl))

updating-Outcome :
    (input : UpdateInput) (new : Option UserStatus) (w : World)
    → UniqueIds w.tables
    → validate_status_change input ≡ ok new
    → Outcome input w (after_update input (transaction (apply_user_update input new) w))
updating-Outcome input new w unique v =
    settled input new w (transaction (apply_user_update input new) w) v
      (λ a w' h.
        let (w₁, ran, left) = transaction-ok (apply_user_update input new) w w' a h in
        let (l, u, b) = apply_user_update-Updated input new (begin w) w₁ a unique ran in
        (
          l,
          subst (λ t. Updated input new l w.tables t)
              (ap {B = Tables} (λ (z : World). z.tables) (sym left)) u,
          b,
        ))
      (λ e h. transaction-err (apply_user_update input new) w e h)

valid-Outcome :
    (input : UpdateInput) (w : World) (r : Result (Option UserStatus))
    → UniqueIds w.tables
    → validate_status_change input ≡ r
    → Outcome input w (update_valid input r w)
unfolding ◌>>=◌
valid-Outcome input w (ok new) unique v = updating-Outcome input new w unique v
valid-Outcome input w (err e) unique v = unmoved refl refl

continued-Outcome :
    (input : UpdateInput) (w : World) (r : Result (Unit {0}) × World) (m : Action Account)
    → accounts r.1.tables ≡ accounts w.tables
    → (r.0 ≡ ok tt → r.1 ≡ w)
    → Outcome input w (m w)
    → Outcome input w (continue r (λ _. m))
continued-Outcome input w (ok u, w') m same e o =
    subst (λ z. Outcome input w (m z)) (sym (e refl)) o
continued-Outcome input w (err x, w') m same e o = unmoved refl same

passes :
    (input : UpdateInput) (w : World)
    → (reject_self_role_assignment input w).0 ≡ ok tt
    → (reject_self_role_assignment input w).1 ≡ w
unfolding reject_self_role_assignment ◌>>=◌
passes input w h =
    elim (Bool-cases (not (is_some input.roles) || not (input.actor_user_id == input.user_id))) [
      | inl e ↦ ground arith
      | inr e ↦ ground arith
    ]

pub update_user-Outcome :
    (input : UpdateInput) (w : World) → UniqueIds w.tables → Outcome input w (update_user input w)
unfolding update_user ◌>>=◌
update_user-Outcome input w unique =
    continued-Outcome input w (reject_self_role_assignment input w)
      (update_valid input (validate_status_change input)) ((reject_self-Keeps input).at w)
      (passes input w) (valid-Outcome input w (validate_status_change input) unique refl)
