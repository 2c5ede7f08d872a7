-- ===== src/Admin/Assigned.antt =====
-- admin.go, UpdateUser: the accounts and their roles after an update.
use identity_hub.Base.{
  Bool, Bytes, List, Option, Option-cases, [], ap, arith, bytes_eq_refl, bytes_eq_sound, codes,
  elem, exists_where, false, inl, inr, is_some, none, refl, some, subst, true, update_where, ℕ,
  ◌&&◌, ◌==◌, ◌∙◌, ◌∷◌, ◌≡◌, ◌≢◌,
}
use identity_hub.World.{
  Result, Result-cases, Tables, User, UserStatus, World, disabled, done, is_ok, ok,
  role_assignment_rejected, status_eq, ◌>>=◌,
}
use identity_hub.Sql.Users.{insert_name, sort_names}
use identity_hub.Sql.Sorted.{elem-insert_name, elem-sort_names}
use identity_hub.Sql.Directory.{set_status}
use identity_hub.Admin.Grants.{UniqueIds, held}
use identity_hub.Admin.Update.{Grants, Rows, changed, kept, replaced, untouched}
use identity_hub.Admin.Names.{deduplicate_lem, distinct, same_roles_iff}
use identity_hub.Admin.Guard.{Outcome, moved, unmoved, update_user-Outcome}
use identity_hub.Admin.{
  Account, Loaded, UpdateInput, audit_alone, deduplicate, new_roles_of, parse_status,
  reject_self_role_assignment, update_user, validate_status_change,
}

distinct-insert_name :
    (n : Bytes) (ms : List Bytes) → distinct (insert_name n ms) ≡ distinct (n ∷ ms)
unfolding insert_name
distinct-insert_name n [] = refl
distinct-insert_name n (m ∷ ms) = ground (
  arith,
  distinct-insert_name n ms,
  elem-insert_name m n ms,
  bytes_eq_sound n m,
  bytes_eq_sound m n,
  bytes_eq_refl n,
)

distinct-sort_names : (ns : List Bytes) → distinct (sort_names ns) ≡ distinct ns
unfolding sort_names
distinct-sort_names [] = refl
distinct-sort_names (n ∷ ns) =
    ground
      (arith, distinct-insert_name n (sort_names ns), distinct-sort_names ns, elem-sort_names n ns)

-- A request that names the roles of the actor itself is refused.
self_refused :
    (input : UpdateInput) (w : World)
    → is_some input.roles ≡ true
    → (input.actor_user_id == input.user_id) ≡ true
    → is_ok (update_user input w).0 ≡ false
unfolding update_user reject_self_role_assignment ◌>>=◌
self_refused input w asked self =
    elim (Result-cases (audit_alone role_assignment_rejected none input w).0) [
      | inl (u, f) ↦ ground arith
      | inr (x, f) ↦ ground arith
    ]

names_after :
    (input : UpdateInput) (roles : List Bytes) (l : Loaded) (t t' : Tables) (n : Bytes)
    → input.roles ≡ some roles
    → distinct (held input.user_id t) ≡ true
    → l.current_roles ≡ sort_names (held input.user_id t)
    → t'.roles ≡ t.roles
    → Grants input l.current_roles (new_roles_of input l.current_roles) t t'
    → elem n (held input.user_id t') ≡ elem n roles
names_after input roles l t t' n asked once names rs (untouched same k) =
    let (unique, elems) = deduplicate_lem roles in
    let sorted = distinct-sort_names (held input.user_id t) in
    let agree =
      same_roles_iff l.current_roles (deduplicate roles) (ground (arith, names, sorted, once))
        unique in
    let equal = agree.0 (ground (arith, k, asked)) n in
    ground (arith, equal, elems n, names, elem-sort_names n (held input.user_id t), same, rs)
names_after input roles l t t' n asked once names rs (replaced k others exactly) =
    let (unique, elems) = deduplicate_lem roles in ground (arith, exactly n, elems n, asked)

others_after :
    (input : UpdateInput) (current wanted : List Bytes) (t t' : Tables) (other : ℕ)
    → Grants input current wanted t t'
    → t'.roles ≡ t.roles
    → other ≢ input.user_id
    → held other t' ≡ held other t
others_after input current wanted t t' other (untouched same asked) rs k = ground (arith, same, rs)
others_after input current wanted t t' other (replaced asked others exactly) rs k = others other k

-- What a success with roles has done.
pub record Assigned (input : UpdateInput) (roles : List Bytes) (t t' : Tables) : Type 0 where
  pub not_self : input.actor_user_id ≢ input.user_id
  pub has_base : elem (codes "user") roles ≡ true
  pub exactly : (n : Bytes) → elem n (held input.user_id t') ≡ elem n roles
  pub others : (other : ℕ) → other ≢ input.user_id → held other t' ≡ held other t

outcome-Assigned :
    (input : UpdateInput) (roles : List Bytes) (w : World) (r : Result Account × World)
    → input.roles ≡ some roles
    → distinct (held input.user_id w.tables) ≡ true
    → is_ok r.0 ≡ true
    → input.actor_user_id ≢ input.user_id
    → Outcome input w r
    → Assigned input roles w.tables r.1.tables
outcome-Assigned input roles w r asked once done apart (unmoved f e) =
    absurd (ground (arith, f, done))
outcome-Assigned input roles w r asked once done apart (moved new l k v u b) =
    let (unique, elems) = deduplicate_lem roles in
    record {
      not_self = apart;
      has_base = ground (arith, b, asked, elems (codes "user"));
      exactly = λ n.
          names_after input roles l w.tables r.1.tables n asked once u.seen.names u.kept_roles
            u.grants;
      others = λ other k.
          others_after input l.current_roles (new_roles_of input l.current_roles) w.tables
            r.1.tables other u.grants u.kept_roles k;
    }

-- When UpdateUser succeeds for a request with roles, where role ids are unique and the user held no
-- role twice, then the actor is not the user, the requested roles include the base role, the user
-- holds exactly the requested names, and every other user holds what they held.
pub update_user-Assigned :
    (input : UpdateInput) (roles : List Bytes) (w w' : World) (a : Account)
    → UniqueIds w.tables
    → input.roles ≡ some roles
    → distinct (held input.user_id w.tables) ≡ true
    → update_user input w ≡ (ok a, w')
    → Assigned input roles w.tables w'.tables
update_user-Assigned input roles w w' a unique asked once h =
    outcome-Assigned input roles w (ok a, w') asked once refl
      (λ self. ground (arith, self_refused input w, asked, h, self))
      (subst (Outcome input w) h (update_user-Outcome input w unique))

abbrev pub is_disabled : ℕ → User → Bool
is_disabled user_id u = u.id == user_id && status_eq u.status disabled

not_disabled_by :
    (user_id : ℕ) (s : UserStatus) (us : List User)
    → status_eq s disabled ≡ false
    → exists_where
        (is_disabled user_id)
        (update_where (λ (q : User). q.id == user_id) (set_status s) us)
      ≡ false
not_disabled_by user_id s [] h = refl
not_disabled_by user_id s (u ∷ us) h = ground (arith, not_disabled_by user_id s us h)

not_disabling :
    (input : UpdateInput) (s : UserStatus)
    → input.actor_user_id ≡ input.user_id
    → validate_status_change input ≡ ok (some s)
    → status_eq s disabled ≡ false
unfolding validate_status_change
not_disabling input s self v = elim (Option-cases input.status) [
  | inl e ↦ ground arith
  | inr (text, e) ↦ elim (Option-cases (parse_status text)) [
    | inl f ↦ ground arith
    | inr (q, f) ↦ ground arith
  ]
]

own_status :
    (input : UpdateInput) (new : Option UserStatus) (us us' : List User)
    → input.actor_user_id ≡ input.user_id
    → validate_status_change input ≡ ok new
    → Rows input.user_id new us us'
    → exists_where (is_disabled input.user_id) us ≡ false
    → exists_where (is_disabled input.user_id) us' ≡ false
own_status input new us us' self v (kept e) h = ground (arith, e, h)
own_status input new us us' self v (changed s k e) h = ground (
  arith,
  e,
  not_disabled_by input.user_id s us
      (not_disabling input s self (v ∙ ap {B = Result (Option UserStatus)} ok k)),
)

own_roles :
    (input : UpdateInput) (current wanted : List Bytes) (t t' : Tables)
    → Grants input current wanted t t'
    → t'.roles ≡ t.roles
    → is_some input.roles ≢ true
    → held input.user_id t' ≡ held input.user_id t
own_roles input current wanted t t' (untouched same asked) rs k = ground (arith, same, rs)
own_roles input current wanted t t' (replaced asked others exactly) rs k = absurd (k asked)

own_outcome :
    (input : UpdateInput) (w : World) (r : Result Account × World)
    → input.actor_user_id ≡ input.user_id
    → (is_some input.roles ≡ true → is_ok r.0 ≡ false)
    → Outcome input w r
    → (held input.user_id r.1.tables ≡ held input.user_id w.tables)
      × (exists_where (is_disabled input.user_id) w.tables.users ≡ false
          → exists_where (is_disabled input.user_id) r.1.tables.users ≡ false)
own_outcome input w r self no_roles (unmoved f e) = (ground (arith, e), λ h. ground (arith, e, h))
own_outcome input w r self no_roles (moved new l k v u b) = (
  own_roles input l.current_roles (new_roles_of input l.current_roles) w.tables r.1.tables u.grants
      u.kept_roles (λ a. ground (arith, no_roles a, k)),
  own_status input new w.tables.users r.1.tables.users self v u.rows,
)

-- Where role ids are unique, whatever an administrator asks of UpdateUser for their own account and
-- whatever fails, they hold afterwards the roles that they held before, and their account is not
-- disabled if it was not.
pub own_account_stays :
    (input : UpdateInput) (w : World)
    → UniqueIds w.tables
    → input.actor_user_id ≡ input.user_id
    → (held input.user_id (update_user input w).1.tables ≡ held input.user_id w.tables)
      × (exists_where (is_disabled input.user_id) w.tables.users ≡ false
          → exists_where (is_disabled input.user_id) (update_user input w).1.tables.users ≡ false)
own_account_stays input w unique self =
    own_outcome input w (update_user input w) self
      (λ asked. self_refused input w asked (ground (arith, self)))
      (update_user-Outcome input w unique)
