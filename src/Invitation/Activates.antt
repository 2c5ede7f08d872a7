-- ===== src/Invitation/Activates.antt =====
-- invitation.go: Accept, and the invitation and the account before and after.
use identity_hub.Sql.Audit.{insert_audit_event}
use identity_hub.Base.{
  Bool, Bytes, List, Option-cases, [], ap, arith, bytes_eq, bytes_eq_refl, exists_where, find,
  find-exists_where, find-update_where, find_sound, inl, inr, none, refl, some, suc, true,
  update_where, ℕ, ◌&&◌, ◌<◌, ◌==◌, ◌∷◌, ◌≡◌,
}
use identity_hub.World.{
  Action, Purpose, Result-cases, Tables, User, VerificationRow, World, begin, email_verification,
  invitation, map_error, no_rows_as, ok, password_reset, statement, token_invalid, transaction-ok,
  ◌>>=◌,
}
use identity_hub.Sql.Users.{is_active}
use identity_hub.Sql.Reset.{
  activate, consume_invitation_token, invitation_token_is_usable, invited, invites, invites_account,
  spend_token,
}
use identity_hub.Invitation.{
  Input, Service, accept, accept_usable, consume_and_publish, usable_token_hash, validate_input,
}
use identity_hub.World.Keeps.{
  bind-Keeps, first_step, map_error-Keeps, publish-Keeps, statement-Keeps,
}

abbrev accounts : Tables → List User × List VerificationRow
accounts t = (t.users, t.verification_tokens)

-- The account is active and has the password hash.
abbrev pub is_activated : ℕ → Bytes → User → Bool
is_activated user_id hash u = u.id == user_id && is_active u && bytes_eq u.password_hash hash

-- A stored invitation bought an account, at a time of the database.
pub record Activated (token_hash hash : Bytes) (at : ℕ) (t t' : Tables) (r : VerificationRow)
    : Type 0 where
  pub stored : find (λ q. bytes_eq q.token_hash token_hash) t.verification_tokens ≡ some r
  pub invited_by : r.purpose ≡ invitation
  pub unused : r.used_at ≡ none
  pub unexpired : at < r.expires_at
  pub was_pending : exists_where (invited r.user_id) t.users ≡ true
  pub activated : exists_where (is_activated r.user_id hash) t'.users ≡ true
  pub spent :
      find (λ q. bytes_eq q.token_hash token_hash) t'.verification_tokens
      ≡ some (record r { used_at = some at })

accounts-Activated :
    (token_hash hash : Bytes) (at : ℕ) (t t' t'' : Tables) (r : VerificationRow)
    → accounts t'' ≡ accounts t'
    → Activated token_hash hash at t t' r
    → Activated token_hash hash at t t'' r
accounts-Activated token_hash hash at t t' t'' r same a = record {
  stored = a.stored;
  invited_by = a.invited_by;
  unused = a.unused;
  unexpired = a.unexpired;
  was_pending = a.was_pending;
  activated = ground (arith, a.activated, same);
  spent = ground (arith, a.spent, same);
}

invitation_purpose : (p : Purpose) → invites_account p ≡ true → p ≡ invitation
invitation_purpose email_verification h = ground arith
invitation_purpose password_reset h = ground arith
invitation_purpose invitation h = refl

now_active :
    (user_id : ℕ) (hash : Bytes) (us : List User) (a : User)
    → find (invited user_id) us ≡ some a
    → exists_where (is_activated user_id hash) (update_where (invited user_id) (activate hash) us)
      ≡ true
now_active user_id hash [] a h = ground arith
now_active user_id hash (u ∷ us) a h =
    ground (arith, now_active user_id hash us a, bytes_eq_refl hash)

now_spent :
    (token_hash : Bytes) (at : ℕ) (rows : List VerificationRow) (r : VerificationRow)
    → find (λ q. bytes_eq q.token_hash token_hash) rows ≡ some r
    → invites token_hash at r ≡ true
    → find
        (λ q. bytes_eq q.token_hash token_hash)
        (update_where (invites token_hash at) (spend_token at) rows)
      ≡ some (spend_token at r)
now_spent token_hash at rows r stored open_ = ground (
  arith,
  find-update_where (λ (q : VerificationRow). bytes_eq q.token_hash token_hash)
      (invites token_hash at) (spend_token at) rows r (λ q. refl) stored,
)

consume-ok :
    (token_hash hash : Bytes) (at : ℕ) (t : Tables) (o : User)
    → (consume_invitation_token token_hash hash at t).0 ≡ ok o
    → (r : VerificationRow) × Activated token_hash hash at t
        (consume_invitation_token token_hash hash at t).1
        r
unfolding consume_invitation_token
consume-ok token_hash hash at t o h =
    elim (Option-cases
      (find (λ (q : VerificationRow). bytes_eq q.token_hash token_hash) t.verification_tokens)) [
        | inl e ↦ ground arith
        | inr (r, e) ↦ elim (Option-cases (find (invited r.user_id) t.users)) [
          | inl f ↦ ground arith
          | inr (u, f) ↦ (
            r,
            record {
              stored = e;
              invited_by = invitation_purpose r.purpose (ground arith);
              unused = ground arith;
              unexpired = ground arith;
              was_pending =
                  find-exists_where (invited r.user_id) (invited r.user_id) t.users u f
                    (find_sound (invited r.user_id) t.users u f);
              activated = ground (arith, now_active r.user_id hash t.users u f);
              spent = ground (
                arith,
                now_spent token_hash at t.verification_tokens r e (
                    ground (
                      arith,
                      find_sound (λ (q : VerificationRow). bytes_eq q.token_hash token_hash)
                          t.verification_tokens r e,
                    )),
              );
            },
          )
        ]
      ]

abbrev consume_step : Bytes → Bytes → Action User
consume_step token_hash hash =
    map_error (no_rows_as token_invalid) (statement (consume_invitation_token token_hash hash))

step-ok :
    (token_hash hash : Bytes) (w : World) (o : User)
    → (consume_step token_hash hash w).0 ≡ ok o
    → (r : VerificationRow) × Activated token_hash hash w.tx_now w.tables
        (consume_step token_hash hash w).1.tables
        r
unfolding ◌>>=◌
step-ok token_hash hash w o h =
    elim (Result-cases (statement (consume_invitation_token token_hash hash) w).0) [
      | inr (x, e) ↦ ground arith
      | inl (p, e) ↦
          let (r, done_) = consume-ok token_hash hash w.tx_now w.tables p (ground arith) in
          (r, accounts-Activated token_hash hash w.tx_now w.tables _ _ r (ground arith) done_)
    ]

consume_and_publish-ok :
    (input : Input) (token_hash hash : Bytes) (w w' : World) (u : Unit {0})
    → consume_and_publish input token_hash hash w ≡ (ok u, w')
    → (r : VerificationRow) × Activated token_hash hash w.tx_now w.tables w'.tables r
unfolding consume_and_publish insert_audit_event
consume_and_publish-ok input token_hash hash w w' u h =
    let (p, ran, left) =
      first_step {f = accounts} _ _ w w' u h λ p.
        bind-Keeps (statement-Keeps _ (λ at t. refl)) λ _. map_error-Keeps _ (publish-Keeps _) in
    let (r, done_) = step-ok token_hash hash w p ran in
    (r, accounts-Activated token_hash hash w.tx_now w.tables _ w'.tables r left done_)

accept_usable-ok :
    (s : Service) (input : Input) (token_hash : Bytes) (w w' : World) (u : Unit {0})
    → accept_usable s input token_hash w ≡ (ok u, w')
    → (hash : Bytes) × (s.ext.hash input.password ≡ some hash)
      × ((r : VerificationRow) × Activated token_hash hash
            (w.env.db_clock w.tick)
            w.tables
            w'.tables
            r)
unfolding accept_usable ◌>>=◌
accept_usable-ok s input token_hash w w' u h = elim (Option-cases (s.ext.hash input.password)) [
  | inl e ↦ ground arith
  | inr (hash, e) ↦
      let (w₁, ran, kept) =
        transaction-ok (consume_and_publish input token_hash hash) w w' u (ground arith) in
      let (r, done_) = consume_and_publish-ok input token_hash hash (begin w) w₁ u ran in
      (
        hash,
        e,
        (
          r,
          accounts-Activated token_hash hash _ w.tables w₁.tables w'.tables r
              (ap {B = List User × List VerificationRow} (λ (z : World). accounts z.tables) kept)
              done_,
        ),
      )
]

-- When an invitation is accepted with a token that decodes, the row with the token's hash is stored, is
-- an invitation (no token of another purpose), unused and unexpired by the database's clock, and its
-- account is pending; afterwards the account is active with the hash of the password of the request,
-- and the row is used.
pub accept-Activated :
    (s : Service) (input : Input) (raw : Bytes) (w w' : World) (u : Unit {0})
    → s.ext.decode input.token ≡ some raw
    → accept s input w ≡ (ok u, w')
    → (hash : Bytes) × (s.ext.hash input.password ≡ some hash)
      × ((r : VerificationRow) × Activated
            (s.ext.sha256 raw)
            hash
            (w.env.db_clock (suc w.tick))
            w.tables
            w'.tables
            r)
unfolding accept usable_token_hash validate_input ◌>>=◌ invitation_token_is_usable
accept-Activated s input raw w w' u d h =
    accept_usable-ok s input (s.ext.sha256 raw)
      (record w { tick = suc w.tick; tx_now = w.env.db_clock w.tick }) w' u (ground arith)
