-- ===== src/Admin/Rights.antt =====
-- admin.go, UpdateUser: the active administrators before and after an update.
use identity_hub.Sql.Sessions.{is_live}
use identity_hub.Base.{
  Bool, Bool-cases, Bytes, List, Option, [], ap, arith, bytes_eq, codes, count_where, elem, false,
  find, find-update_where, find_sound, inl, inr, ltb, refl, some, sym, true, ℕ, ◌==◌, ◌∙◌, ◌∷◌, ◌≡◌,
  ◌≢◌, ◌≤◌,
}
use identity_hub.World.{Result, Tables, User, UserStatus, World, active, status_eq}
use identity_hub.Sql.Users.{is_active}
use identity_hub.Sql.Sorted.{elem-sort_names}
use identity_hub.Sql.Directory.{admin_rows, set_status}
use identity_hub.Admin.Grants.{UniqueIds, held}
use identity_hub.Admin.Update.{Grants, Rows, Updated, changed, kept, replaced, untouched}
use identity_hub.Admin.Remaining.{
  found-has_admin, has_admin, has_admin-cases, has_other, has_other-has_admin, has_other-same,
  has_other-update, two-has_other,
}
use identity_hub.Admin.Guard.{Outcome, moved, unmoved, update_user-Outcome}
use identity_hub.Admin.{
  Account, Loaded, UpdateInput, new_roles_of, or_status, removes_active_admin, update_user,
  would_remove,
}

abbrev pub is_admin : Tables → ℕ → Bool
is_admin t id = elem (codes "admin") (held id t)

-- Some account is active and holds the role of administrators.
abbrev pub HasAdmin : Tables → Type 0
HasAdmin t = has_admin (is_admin t) t.users ≡ true

elem-count :
    (x : Bytes) (names : List Bytes) → ltb 0 (count_where (λ n. bytes_eq n x) names) ≡ elem x names
elem-count x [] = refl
elem-count x (n ∷ names) = ground (arith, elem-count x names)

rows-is_admin : (t : Tables) (id : ℕ) → ltb 0 (admin_rows t.user_roles t.roles id) ≡ is_admin t id
unfolding admin_rows
rows-is_admin t id = elem-count (codes "admin") (held id t)

others_hold :
    (input : UpdateInput) (current wanted : List Bytes) (t t' : Tables) (other : ℕ)
    → Grants input current wanted t t'
    → t'.roles ≡ t.roles
    → other ≢ input.user_id
    → is_admin t other ≡ is_admin t' other
others_hold input current wanted t t' other (untouched same asked) rs k = ground (arith, same, rs)
others_hold input current wanted t t' other (replaced asked others exactly) rs k =
    ground (arith, others other k)

others_stay :
    (user_id : ℕ) (new : Option UserStatus) (h : ℕ → Bool) (us us' : List User)
    → Rows user_id new us us'
    → has_other user_id h us' ≡ has_other user_id h us
others_stay user_id new h us us' (kept e) = ap (has_other user_id h) e
others_stay user_id new h us us' (changed s n e) =
    ap (has_other user_id h) e ∙ has_other-update user_id h (set_status s) us (λ u. refl)

another_remains :
    (input : UpdateInput) (new : Option UserStatus) (l : Loaded) (t t' : Tables)
    → Updated input new l t t'
    → has_other input.user_id (is_admin t) t.users ≡ true
    → HasAdmin t'
another_remains input new l t t' u h = has_other-has_admin input.user_id (is_admin t') t'.users (
    others_stay input.user_id new (is_admin t') t.users t'.users u.rows
    ∙ sym (
        has_other-same input.user_id (is_admin t) (is_admin t') t.users (λ other k.
          others_hold input l.current_roles (new_roles_of input l.current_roles) t t' other u.grants
            u.kept_roles k))
    ∙ h)

still_active :
    (user_id : ℕ) (new : Option UserStatus) (us us' : List User) (row : User)
    → Rows user_id new us us'
    → find (λ (q : User). q.id == user_id) us ≡ some row
    → status_eq (or_status new row.status) active ≡ true
    → is_active row ≡ true
    → (row' : User) × (find (λ (q : User). q.id == user_id) us' ≡ some row')
      × (is_active row' ≡ true)
still_active user_id new us us' row (kept e) f s a =
    (row, ap (find (λ (q : User). q.id == user_id)) e ∙ f, a)
still_active user_id new us us' row (changed n k e) f s a = (
  set_status n row,
  ground (
    arith,
    e,
    f,
    find_sound (λ (q : User). q.id == user_id) us row f,
    find-update_where (λ (q : User). q.id == user_id) (λ (q : User). q.id == user_id) (set_status n)
        us row (λ y. refl) f,
  ),
  ground (arith, k),
)

still_admin :
    (input : UpdateInput) (current wanted : List Bytes) (t t' : Tables)
    → Grants input current wanted t t'
    → t'.roles ≡ t.roles
    → is_admin t input.user_id ≡ true
    → elem (codes "admin") wanted ≡ true
    → is_admin t' input.user_id ≡ true
still_admin input current wanted t t' (untouched same asked) rs h k = ground (arith, same, rs)
still_admin input current wanted t t' (replaced asked others exactly) rs h k =
    exactly (codes "admin") ∙ k

-- The user is the only administrator and the update does not remove them.
self_remains :
    (input : UpdateInput) (new : Option UserStatus) (l : Loaded) (t t' : Tables)
    → Updated input new l t t'
    → is_active l.target.row ≡ true
    → is_admin t input.user_id ≡ true
    → would_remove input new l ≡ false
    → HasAdmin t'
unfolding removes_active_admin
self_remains input new l t t' u a h r =
    let there = elem-sort_names (codes "admin") (held input.user_id t) in
    let names = u.seen.names in
    let (row, found, is_live) =
      still_active input.user_id new t.users t'.users l.target.row u.rows u.seen.found
        (ground (arith, a, h, there, names)) a in
    found-has_admin input.user_id (is_admin t') t'.users row found is_live (
      still_admin input l.current_roles (new_roles_of input l.current_roles) t t' u.grants
        u.kept_roles h (ground (arith, a, h, there, names)))

Updated-HasAdmin :
    (input : UpdateInput) (new : Option UserStatus) (l : Loaded) (t t' : Tables)
    → Updated input new l t t'
    → count_where (λ (q : User). q.id == input.user_id) t.users ≤ 1
    → admin_rows t.user_roles t.roles input.user_id ≤ 1
    → HasAdmin t
    → HasAdmin t'
Updated-HasAdmin input new l t t' u one once h =
    elim (Bool-cases (has_other input.user_id (is_admin t) t.users)) [
      | inl other ↦ another_remains input new l t t' u other
      | inr alone ↦
          let (live, holds) =
            has_admin-cases input.user_id (is_admin t) t.users l.target.row one u.seen.found h
              alone in
          let rows =
            two-has_other input.user_id (admin_rows t.user_roles t.roles) t.users one once (
              has_other-same input.user_id (λ id. ltb 0 (admin_rows t.user_roles t.roles id))
                (is_admin t) t.users (λ other k. rows-is_admin t other)
              ∙ alone) in
          elim (Bool-cases (would_remove input new l)) [
            | inl e ↦ absurd (ground (arith, u.guarded e, u.seen.admins, rows))
            | inr e ↦ self_remains input new l t t' u live holds e
          ]
    ]

outcome-HasAdmin :
    (input : UpdateInput) (w : World) (r : Result Account × World)
    → count_where (λ (q : User). q.id == input.user_id) w.tables.users ≤ 1
    → admin_rows w.tables.user_roles w.tables.roles input.user_id ≤ 1
    → HasAdmin w.tables
    → Outcome input w r
    → HasAdmin r.1.tables
outcome-HasAdmin input w r one once h (unmoved f e) = ground (arith, e, h)
outcome-HasAdmin input w r one once h (moved new l k v u b) =
    Updated-HasAdmin input new l w.tables r.1.tables u one once h

-- Where user ids and role ids are unique and no user holds the role of administrators twice, an
-- active administrator is there after UpdateUser, whatever it was asked and whatever failed, if one
-- was there before.
pub update_user-HasAdmin :
    (input : UpdateInput) (w : World)
    → UniqueIds w.tables
    → count_where (λ (q : User). q.id == input.user_id) w.tables.users ≤ 1
    → admin_rows w.tables.user_roles w.tables.roles input.user_id ≤ 1
    → HasAdmin w.tables
    → HasAdmin (update_user input w).1.tables
update_user-HasAdmin input w unique one once h =
    outcome-HasAdmin input w (update_user input w) one once h (update_user-Outcome input w unique)
