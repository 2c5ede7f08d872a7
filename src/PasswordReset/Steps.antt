-- ===== src/PasswordReset/Steps.antt =====
-- password_reset.go, Confirm: its steps.
use identity_hub.Base.{
  Bytes, Option-cases, [], ap, arith, bytes_eq, find, inl, inr, refl, some, suc, sym, true, ℕ, ◌==◌,
  ◌∙◌, ◌≡◌,
}
use identity_hub.World.{
  Action, Result, Result-cases, Tables, User, VerificationRow, World, begin, map_error, no_rows_as,
  ok, reset_completed_event, statement, token_invalid, transaction, transaction-ok, ◌>>=◌,
}
use identity_hub.World.Keeps.{bind-Keeps, first_step, publish-Keeps, pure-Keeps, statement-Keeps}
use identity_hub.Sql.Audit.{insert_audit_event}
use identity_hub.Sql.Reset.{
  ResetUser, consume_password_reset_token, is_unspent, password_reset_token_is_usable, reset_tables,
}
use identity_hub.PasswordReset.{
  Service, confirm, confirm_decoded, confirm_usable, consume_reset, decode_confirm_input,
  publish_reset_completed,
}

-- All of the tables but the audit log.
abbrev pub unlogged : Tables → Tables
unlogged t = record t { audit_log = [] }

-- A stored, unused token was spent, and its account reset.
abbrev pub Consumed : Bytes → Bytes → ℕ → Tables → Tables → Type 0
Consumed token_hash hash at t t' =
    (r : VerificationRow) × (find (λ q. bytes_eq q.token_hash token_hash) t.verification_tokens
      ≡ some r)
    × (is_unspent r ≡ true)
    × (unlogged t' ≡ unlogged (reset_tables r hash at t))

consume-ok :
    (token_hash hash : Bytes) (at : ℕ) (t : Tables) (o : ResetUser)
    → (consume_password_reset_token token_hash hash at t).0 ≡ ok o
    → (r : VerificationRow) × (find (λ q. bytes_eq q.token_hash token_hash) t.verification_tokens
        ≡ some r)
      × (is_unspent r ≡ true)
      × ((consume_password_reset_token token_hash hash at t).1 ≡ reset_tables r hash at t)
unfolding consume_password_reset_token
consume-ok token_hash hash at t o h =
    elim (Option-cases
      (find (λ (q : VerificationRow). bytes_eq q.token_hash token_hash) t.verification_tokens)) [
        | inl e ↦ ground arith
        | inr (r, e) ↦ elim (Option-cases (find (λ (u : User). u.id == r.user_id) t.users)) [
          | inl f ↦ ground arith
          | inr (u, f) ↦ (r, e, ground arith, ground arith)
        ]
      ]

abbrev consume_step : Bytes → Bytes → Action ResetUser
consume_step token_hash hash =
    map_error (no_rows_as token_invalid) (statement (consume_password_reset_token token_hash hash))

step-ok :
    (token_hash hash : Bytes) (w : World) (o : ResetUser)
    → (consume_step token_hash hash w).0 ≡ ok o
    → (r : VerificationRow) × (find
          (λ q. bytes_eq q.token_hash token_hash)
          w.tables.verification_tokens
        ≡ some r)
      × (is_unspent r ≡ true)
      × ((consume_step token_hash hash w).1.tables ≡ reset_tables r hash w.tx_now w.tables)
unfolding ◌>>=◌
step-ok token_hash hash w o h =
    elim (Result-cases (statement (consume_password_reset_token token_hash hash) w).0) [
      | inr (x, e) ↦ ground arith
      | inl (p, e) ↦
          let (r, stored, unspent, done_) =
            consume-ok token_hash hash w.tx_now w.tables p (ground arith) in
          (r, stored, unspent, ground arith)
    ]

consume_reset-ok :
    (token_hash hash : Bytes) (w w' : World) (o : ResetUser)
    → consume_reset token_hash hash w ≡ (ok o, w')
    → (r : VerificationRow) × (find
          (λ q. bytes_eq q.token_hash token_hash)
          w.tables.verification_tokens
        ≡ some r)
      × (is_unspent r ≡ true)
      × (unlogged w'.tables ≡ unlogged (reset_tables r hash w.tx_now w.tables))
unfolding consume_reset insert_audit_event
consume_reset-ok token_hash hash w w' o h =
    let (p, ran, left) =
      first_step {f = unlogged} _ _ w w' o h
        λ p. bind-Keeps (statement-Keeps _ (λ at t. refl)) λ _. pure-Keeps _ in
    let (r, stored, unspent, same) = step-ok token_hash hash w p ran in
    (r, stored, unspent, left ∙ ap {B = Tables} unlogged same)

publish_reset_completed-tables :
    (o : ResetUser) (w w' : World) (u : Unit {0})
    → publish_reset_completed o w ≡ (ok u, w')
    → unlogged w'.tables ≡ unlogged w.tables
unfolding publish_reset_completed
publish_reset_completed-tables o w w' u h =
    ap {B = Tables} (λ (q : Result (Unit {0}) × World). unlogged q.1.tables) (sym h)
    ∙ (publish-Keeps {f = unlogged} (reset_completed_event o.account.id o.unlocked_now)).at w

confirm_usable-ok :
    (s : Service) (token_hash new_password : Bytes) (w w' : World) (u : Unit {0})
    → confirm_usable s token_hash new_password w ≡ (ok u, w')
    → (hash : Bytes) × (s.ext.hash new_password ≡ some hash)
      × ((r : VerificationRow) × (find
              (λ q. bytes_eq q.token_hash token_hash)
              w.tables.verification_tokens
            ≡ some r)
          × (is_unspent r ≡ true)
          × (unlogged w'.tables ≡ unlogged (reset_tables r hash (w.env.db_clock w.tick) w.tables)))
unfolding confirm_usable ◌>>=◌ publish_reset_completed
confirm_usable-ok s token_hash new_password w w' u h =
    elim (Option-cases (s.ext.hash new_password)) [
      | inl e ↦ ground arith
      | inr (hash, e) ↦ elim (Result-cases (transaction (consume_reset token_hash hash) w).0) [
        | inr (x, f) ↦ ground arith
        | inl (o, f) ↦
            let z = (transaction (consume_reset token_hash hash) w).1 in
            let (w₁, ran, kept) =
              transaction-ok (consume_reset token_hash hash) w z o (ground arith) in
            let (r, stored, unspent, same) = consume_reset-ok token_hash hash (begin w) w₁ o ran in
            (
              hash,
              e,
              (
                r,
                stored,
                unspent,
                publish_reset_completed-tables o z w' u (ground arith)
                    ∙ ap {B = Tables} (λ (q : World). unlogged q.tables) kept
                    ∙ same,
              ),
            )
      ]
    ]

pub confirm-ok :
    (s : Service) (token new_password raw : Bytes) (w w' : World) (u : Unit {0})
    → s.ext.decode token ≡ some raw
    → confirm s token new_password w ≡ (ok u, w')
    → (hash : Bytes) × (s.ext.hash new_password ≡ some hash)
      × Consumed (s.ext.sha256 raw) hash (w.env.db_clock (suc w.tick)) w.tables w'.tables
unfolding confirm decode_confirm_input confirm_decoded ◌>>=◌ password_reset_token_is_usable
confirm-ok s token new_password raw w w' u d h =
    confirm_usable-ok s (s.ext.sha256 raw) new_password
      (record w { tick = suc w.tick; tx_now = w.env.db_clock w.tick }) w' u (ground arith)
