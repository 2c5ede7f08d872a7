-- ===== src/Login/Sound.antt =====
-- login.go: the checks before the second factor.
use identity_hub.Sql.Audit.{count_login_failures_by_ip, counts_for_ip, insert_audit_event}
use identity_hub.Base.{
  Bool, Bool-cases, Bytes, Option, Option-cases, ap, arith, bytes_eq, count_where, false, find, inl,
  inr, none, refl, some, suc, sym, true, ℕ, ◌&&◌, ◌-◌, ◌<◌, ◌||◌, ◌∙◌, ◌≡◌, ◌≢◌, ◌⊎◌,
}
use identity_hub.World.{
  Action, Error, Result-cases, Tables, User, Verdict, World, begin, differs, err, locked, malformed,
  matches, next, no_rows, now, ok, statement, status_eq, storage, transaction, transaction-ok,
  unacceptable, ◌>>=◌,
}
use identity_hub.Sql.Users.{get_login_user_by_email, is_active, unlock_login_user}
use identity_hub.Mfa
use identity_hub.Mfa.Issue
use identity_hub.Login.{
  Input, Outcome, Service, authenticate, authenticate_known, check_password, finish_login,
  ip_rate_limited_now, is_past, login, publish_lock_event, record_account_failure, record_failure,
  refused, rehash_if_needed, reject_known_user, reject_unknown_user, resolve_lock, tolerate,
  verified,
}

tolerate-ok : (v : Verdict) (w w' : World) → tolerate v w ≡ (ok true, w') → v ≡ matches
unfolding ◌>>=◌
tolerate-ok matches w w' h = refl
tolerate-ok differs w w' h = ground arith
tolerate-ok unacceptable w w' h = ground arith
tolerate-ok malformed w w' h = ground arith

reject_known_user-outcome :
    (s : Service) (u v : User) (input : Input) (at : ℕ) (w w' : World)
    → reject_known_user s u input at w ≢ (ok (verified v), w')
unfolding ◌>>=◌
reject_known_user-outcome s u v input at w w' h =
    elim (Result-cases (record_account_failure s u input at w).0) [
      | inl (event, e) ↦ ground arith
      | inr (x, e) ↦ ground arith
    ]

check_password-ok :
    (s : Service) (u v : User) (input : Input) (at : ℕ) (w w' : World)
    → check_password s u input at w ≡ (ok (verified v), w')
    → (s.ext.verify input.password u.password_hash ≡ matches) × (is_active u ≡ true) × (v ≡ u)
unfolding check_password ◌>>=◌
check_password-ok s u v input at w w' h =
    let m = tolerate (s.ext.verify input.password u.password_hash) in
    elim (Result-cases (m w).0) [
      | inr (x, e) ↦ ground arith
      | inl (false, e) ↦ ground (arith, reject_known_user-outcome s u v input at (m w).1 w')
      | inl (true, e) ↦ elim (Bool-cases (is_active u)) [
        | inr f ↦ ground (arith, reject_known_user-outcome s u v input at (m w).1 w')
        | inl f ↦ elim (Result-cases (rehash_if_needed s u input.password (m w).1).0) [
          | inr (x, g) ↦ ground arith
          | inl (a, g) ↦ (
            tolerate-ok (s.ext.verify input.password u.password_hash) w (m w).1 (ground arith),
            f,
            ground arith,
          )
        ]
      ]
    ]

-- The account may log in now: it is active, or its lock has expired.
abbrev pub is_admitted : User → ℕ → Bool
is_admitted u at = is_active u || status_eq u.status locked && is_past u.locked_until at

resolve_lock-ok :
    (u v : User) (at : ℕ) (w w' : World)
    → resolve_lock u at w ≡ (ok (some v), w')
    → is_active v ≡ true
    → (is_admitted u at ≡ true) × (v.password_hash ≡ u.password_hash)
unfolding resolve_lock ◌>>=◌ unlock_login_user
resolve_lock-ok u v at w w' h a = (ground arith, ground arith)

authenticate_known-ok :
    (s : Service) (u v : User) (input : Input) (at : ℕ) (w w' : World)
    → authenticate_known s u input at w ≡ (ok (verified v), w')
    → (is_admitted u at ≡ true) × (s.ext.verify input.password u.password_hash ≡ matches)
unfolding authenticate_known ◌>>=◌
authenticate_known-ok s u v input at w w' h =
    let m = resolve_lock u at in
    elim (Result-cases (m w).0) [
      | inr (x, e) ↦ ground arith
      | inl (none, e) ↦ ground arith
      | inl (some q, e) ↦
          let (password, active_now, same) =
            check_password-ok s q v input at (m w).1 w' (ground arith) in
          let (admitted, hash) = resolve_lock-ok u q at w (m w).1 (ground arith) active_now in
          (admitted, ap (s.ext.verify input.password) (sym hash) ∙ password)
    ]

reject_unknown_user-outcome :
    (s : Service) (input : Input) (e : Error) (w w' : World) (v : User)
    → (e ≡ no_rows) ⊎ (e ≡ storage)
    → reject_unknown_user s input e w ≢ (ok (verified v), w')
unfolding reject_unknown_user record_failure ◌>>=◌ insert_audit_event
reject_unknown_user-outcome s input e w w' v (inr same) h = ground arith
reject_unknown_user-outcome s input e w w' v (inl same) h =
    elim (Result-cases (tolerate (s.ext.verify_decoy input.password) w).0) [
      | inr (x, f) ↦ ground arith
      | inl (b, f) ↦ ground arith
    ]

get_user-ok :
    (fold : Bytes → Bytes) (email : Bytes) (at : ℕ) (t : Tables) (u : User)
    → (get_login_user_by_email fold email at t).0 ≡ ok u
    → find (λ q. bytes_eq (fold q.email) (fold email)) t.users ≡ some u
unfolding get_login_user_by_email
get_user-ok fold email at t u h =
    elim (Option-cases (find (λ (q : User). bytes_eq (fold q.email) (fold email)) t.users)) [
      | inl e ↦ ground arith
      | inr (c, e) ↦ ground arith
    ]

-- The failures of an address within the window, at the start of a login.
abbrev pub failures_of : Service → ℕ → ℕ → Tables → ℕ
failures_of s ip at t = count_where (counts_for_ip ip (at - s.lockout.failure_window)) t.audit_log

lookup-err :
    (fold : Bytes → Bytes) (email : Bytes) (w : World) (e : Error)
    → (statement (get_login_user_by_email fold email) w).0 ≡ err e
    → (e ≡ no_rows) ⊎ (e ≡ storage)
unfolding get_login_user_by_email ◌>>=◌
lookup-err fold email w e h =
    elim (Option-cases (find (λ (q : User). bytes_eq (fold q.email) (fold email)) w.tables.users)) [
      | inl f ↦ elim (Bool-cases (w.env.fails w.tick)) [
        | inl b ↦ inr (ground arith)
        | inr b ↦ inl (ground arith)
      ]
      | inr (c, f) ↦ inr (ground arith)
    ]

lookup-ok :
    (fold : Bytes → Bytes) (email : Bytes) (w : World) (u : User)
    → (statement (get_login_user_by_email fold email) w).0 ≡ ok u
    → find (λ q. bytes_eq (fold q.email) (fold email)) w.tables.users ≡ some u
unfolding ◌>>=◌
lookup-ok fold email w u h = get_user-ok fold email w.tx_now w.tables u (ground arith)

ip-ok :
    (s : Service) (input : Input) (at : ℕ) (w : World)
    → (ip_rate_limited_now s input at w).0 ≡ ok false
    → ((ip_rate_limited_now s input at w).1.tables ≡ w.tables)
      × ((ip : ℕ) → input.ip ≡ some ip → failures_of s ip at w.tables < s.lockout.ip_max_failures)
unfolding ip_rate_limited_now ◌>>=◌ count_login_failures_by_ip
ip-ok s input at w h = elim (Option-cases input.ip) [
  | inl e ↦ (ground arith, λ ip k. ground arith)
  | inr (ip₀, e) ↦ (ground arith, λ ip k. ground arith)
]

-- What stands in the database when a login reaches the second factor, at a time of the service's clock.
pub record Admitted (s : Service) (input : Input) (at : ℕ) (t : Tables) (u : User) : Type 0 where
  pub stored : find (λ q. bytes_eq (s.ext.fold q.email) (s.ext.fold input.email)) t.users ≡ some u
  pub admitted : is_admitted u at ≡ true
  pub password : s.ext.verify input.password u.password_hash ≡ matches
  pub under_limit :
      (ip : ℕ) → input.ip ≡ some ip → failures_of s ip at t < s.lockout.ip_max_failures

authenticate-Admitted :
    (s : Service) (input : Input) (at : ℕ) (w w' : World) (v : User)
    → authenticate s input at w ≡ (ok (verified v), w')
    → (u : User) × Admitted s input at w.tables u
unfolding authenticate ◌>>=◌
authenticate-Admitted s input at w w' v h =
    let m = ip_rate_limited_now s input at in
    elim (Result-cases (m w).0) [
      | inr (x, e) ↦ ground arith
      | inl (true, e) ↦ ground arith
      | inl (false, e) ↦
          let (same, limit) = ip-ok s input at w e in
          let look = statement (get_login_user_by_email s.ext.fold input.email) in
          elim (Result-cases (look (m w).1).0) [
            | inr (x, f) ↦ ground (
              arith,
              reject_unknown_user-outcome s input x (look (m w).1).1 w' v
                  (lookup-err s.ext.fold input.email (m w).1 x f),
            )
            | inl (u, f) ↦
                let (admitted, password) =
                  authenticate_known-ok s u v input at (look (m w).1).1 w' (ground arith) in
                (
                  u,
                  record {
                    stored =
                        ap {B = Option User}
                          (λ (t : Tables).
                            find (λ q. bytes_eq (s.ext.fold q.email) (s.ext.fold input.email))
                              t.users)
                          (sym same)
                        ∙ lookup-ok s.ext.fold input.email (m w).1 u f;
                    admitted = admitted;
                    password = password;
                    under_limit = limit;
                  },
                )
          ]
    ]

abbrev body : Service → Input → Action Outcome
body s input = do at ← now; authenticate s input at

finish_login-verified :
    (s : Service) (o : Outcome) (w w' : World) (c : Mfa.Issue.Challenge)
    → finish_login s o w ≡ (ok c, w')
    → (v : User) × (o ≡ verified v)
unfolding finish_login ◌>>=◌
finish_login-verified s (verified u) w w' c h = (u, refl)
finish_login-verified s (refused e event) w w' c h =
    elim (Result-cases (publish_lock_event s e event w).0) [
      | inl (x, f) ↦ ground arith
      | inr (x, f) ↦ ground arith
    ]

-- When a login returns a challenge, the account with the e-mail is stored, is active or has a lock
-- that has expired by the service's clock, its hash accepts the password, and the failures of the
-- client's address within the window, when there is an address, are fewer than the limit.
pub login-Admitted :
    (s : Service) (input : Input) (w w' : World) (c : Mfa.Issue.Challenge)
    → login s input w ≡ (ok c, w')
    → (u : User) × Admitted s input (w.env.clock (suc w.tick)) w.tables u
unfolding login ◌>>=◌
login-Admitted s input w w' c h = elim (Result-cases (transaction (body s input) w).0) [
  | inr (x, f) ↦ ground arith
  | inl (o, f) ↦
      let z = (transaction (body s input) w).1 in
      let (w₁, ran, kept) = transaction-ok (body s input) w z o (ground arith) in
      let (v, same) = finish_login-verified s o z w' c (ground arith) in
      authenticate-Admitted s input _ (next (begin w)) w₁ v (ground arith)
]
