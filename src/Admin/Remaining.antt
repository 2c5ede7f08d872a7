-- ===== src/Admin/Remaining.antt =====
-- admin.go: the guard on the last active administrator.
use identity_hub.Base.{
  Bool, Bool-cases, List, [], arith, count_where, exists_where, false, find, inl, inr, ltb, not,
  refl, some, true, update_where, ℕ, ◌&&◌, ◌==◌, ◌∷◌, ◌≡◌, ◌≢◌, ◌≤◌,
}
use identity_hub.World.{User}
use identity_hub.Sql.Users.{is_active}
use identity_hub.Sql.Directory.{sum_active}

-- An active administrator, by a test of the ids that hold the role; and one with another id.
abbrev pub has_admin : (ℕ → Bool) → List User → Bool
has_admin h us = exists_where (λ u. is_active u && h u.id) us

abbrev pub has_other : ℕ → (ℕ → Bool) → List User → Bool
has_other user_id h us = exists_where (λ u. not (u.id == user_id) && (is_active u && h u.id)) us

none_of :
    (user_id : ℕ) (g : ℕ → ℕ) (us : List User)
    → count_where (λ u. u.id == user_id) us ≡ 0
    → has_other user_id (λ id. ltb 0 (g id)) us ≡ false
    → sum_active g us ≡ 0
none_of user_id g [] c h = refl
none_of user_id g (u ∷ us) c h = ground (arith, none_of user_id g us)

-- With two rows of active administrators, one of them is another user's.
pub two-has_other :
    (user_id : ℕ) (g : ℕ → ℕ) (us : List User)
    → count_where (λ u. u.id == user_id) us ≤ 1
    → g user_id ≤ 1
    → has_other user_id (λ id. ltb 0 (g id)) us ≡ false
    → sum_active g us ≤ 1
two-has_other user_id g [] c one h = ground arith
two-has_other user_id g (u ∷ us) c one h =
    ground (arith, two-has_other user_id g us, none_of user_id g us)

pub has_other-has_admin :
    (user_id : ℕ) (h : ℕ → Bool) (us : List User)
    → has_other user_id h us ≡ true
    → has_admin h us ≡ true
has_other-has_admin user_id h [] e = ground arith
has_other-has_admin user_id h (u ∷ us) e = ground (arith, has_other-has_admin user_id h us)

pub has_other-same :
    (user_id : ℕ) (h k : ℕ → Bool) (us : List User)
    → ((other : ℕ) → other ≢ user_id → h other ≡ k other)
    → has_other user_id h us ≡ has_other user_id k us
has_other-same user_id h k [] e = refl
has_other-same user_id h k (u ∷ us) e = ground (arith, has_other-same user_id h k us e, e u.id)

pub has_other-update :
    (user_id : ℕ) (h : ℕ → Bool) (f : User → User) (us : List User)
    → ((u : User) → (f u).id ≡ u.id)
    → has_other user_id h (update_where (λ u. u.id == user_id) f us) ≡ has_other user_id h us
has_other-update user_id h f [] e = refl
has_other-update user_id h f (u ∷ us) e = ground (arith, has_other-update user_id h f us e, e u)

no_admin :
    (user_id : ℕ) (h : ℕ → Bool) (us : List User)
    → count_where (λ u. u.id == user_id) us ≡ 0
    → has_other user_id h us ≡ false
    → has_admin h us ≡ false
no_admin user_id h [] c o = refl
no_admin user_id h (u ∷ us) c o = ground (arith, no_admin user_id h us)

-- An administrator is the user or another; the user's row is the only one with its id.
pub has_admin-cases :
    (user_id : ℕ) (h : ℕ → Bool) (us : List User) (row : User)
    → count_where (λ u. u.id == user_id) us ≤ 1
    → find (λ u. u.id == user_id) us ≡ some row
    → has_admin h us ≡ true
    → has_other user_id h us ≡ false
    → (is_active row ≡ true) × (h user_id ≡ true)
has_admin-cases user_id h [] row c f e o = ground arith
has_admin-cases user_id h (u ∷ us) row c f e o = elim (Bool-cases (u.id == user_id)) [
  | inl same ↦ (ground (arith, no_admin user_id h us), ground (arith, no_admin user_id h us))
  | inr other ↦ ground (arith, has_admin-cases user_id h us row)
]

pub found-has_admin :
    (user_id : ℕ) (h : ℕ → Bool) (us : List User) (row : User)
    → find (λ u. u.id == user_id) us ≡ some row
    → is_active row ≡ true
    → h user_id ≡ true
    → has_admin h us ≡ true
found-has_admin user_id h [] row f a b = ground arith
found-has_admin user_id h (u ∷ us) row f a b = ground (arith, found-has_admin user_id h us row)
