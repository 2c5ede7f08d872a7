-- ===== src/Http/Rbac.antt =====
-- rbac.go: the authorization of a request.
use identity_hub.Base.{
  Bool, Bytes, List, Option, Option-cases, arith, elem, find, if◌then◌else◌, inl, inr, none, some,
  true, ℕ, ◌==◌, ◌≡◌,
}
use identity_hub.World.{
  Action, Result, Result-cases, Tables, User, World, autocommit, err, ok, pure, ◌>>=◌,
}
use identity_hub.Sql.Sorted.{elem-sort_names}
use identity_hub.Sql.Users.{get_user_by_id, is_active, list_roles_for_user, role_names}

-- The problem that is written, or `allowed` for nil.
pub data Decision : Type 0 where
  allowed unauthorized unavailable_now load_failed forbidden : Decision

abbrev pub after_roles : Bytes → Result (List Bytes) × World → Result Decision × World
after_roles required (err e, w) = (ok load_failed, w)
after_roles required (ok granted, w) =
    (ok (if elem required granted then allowed else forbidden), w)

abbrev pub after_user : ℕ → Bytes → Result User × World → Result Decision × World
after_user user_id required (err e, w) = (ok load_failed, w)
after_user user_id required (ok u, w) =
    if is_active u
    then after_roles required (autocommit (list_roles_for_user user_id) w)
    else (ok unauthorized, w)

-- authorizeRole for a user and a repository that are there.
abbrev pub authorize_user : ℕ → Bytes → Action Decision
authorize_user user_id required w =
    after_user user_id required (autocommit (get_user_by_id user_id) w)

-- authorizeRole, by the user of the request's token, if any, and whether there is a repository.
unfoldable pub authorize_role : Option ℕ → Bool → Bytes → Action Decision
authorize_role none repository required = pure unauthorized
authorize_role (some user_id) repository required =
    if repository then authorize_user user_id required else pure unavailable_now

get_user-ok :
    (user_id at : ℕ) (t : Tables) (u : User)
    → (get_user_by_id user_id at t).0 ≡ ok u
    → (find (λ q. q.id == user_id) t.users ≡ some u) × ((get_user_by_id user_id at t).1 ≡ t)
unfolding get_user_by_id
get_user-ok user_id at t u h = elim (Option-cases (find (λ (q : User). q.id == user_id) t.users)) [
  | inl e ↦ ground arith
  | inr (c, e) ↦ (ground arith, ground arith)
]

-- When a request of a user is allowed, the user is stored and active in the database of this moment,
-- and a role that the user holds there has the required name.
pub allowed_lem :
    (user_id : ℕ) (repository : Bool) (required : Bytes) (w w' : World)
    → authorize_role (some user_id) repository required w ≡ (ok allowed, w')
    → (u : User) × (find (λ q. q.id == user_id) w.tables.users ≡ some u)
      × (is_active u ≡ true)
      × (elem required (role_names user_id w.tables.user_roles w.tables.roles) ≡ true)
unfolding authorize_role ◌>>=◌ list_roles_for_user
allowed_lem user_id repository required w w' h =
    elim (Result-cases (get_user_by_id user_id (w.env.db_clock w.tick) w.tables).0) [
      | inr (x, e) ↦ ground arith
      | inl (u, e) ↦
          let (stored, same) = get_user-ok user_id _ w.tables u e in
          (
            u,
            stored,
            ground arith,
            ground (
              arith,
              elem-sort_names required (role_names user_id w.tables.user_roles w.tables.roles),
            ),
          )
    ]
