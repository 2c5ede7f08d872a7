-- ===== src/PasswordReset/Closes.antt =====
-- password_reset.go, Confirm: the account, its tokens and its sessions after a reset.
use identity_hub.Sql.Sessions.{revoke, revoke_hub}
use identity_hub.Base.{
  All, Bool, Bytes, List, [], ap, arith, bytes_eq, exists_where, exists_where-update_where, false,
  find, find-update_where, refl, some, subst, suc, sym, true, update_where, ℕ, ◌==◌, ◌∙◌, ◌∷◌, ◌≡◌,
  ◌≢◌,
}
use identity_hub.World.{Tables, User, VerificationRow, World, ok}
use identity_hub.Sql.Reset.{
  is_live_hub_of, is_live_token_of, is_unspent, is_unspent_of, reset_tables, set_password,
  spend_token,
}
use identity_hub.PasswordReset.{Service, confirm}
use identity_hub.PasswordReset.Steps.{confirm-ok, unlogged}

-- The account's password hash.
abbrev pub HasPassword : ℕ → Bytes → User → Type 0
HasPassword user_id hash u = u.id ≡ user_id → u.password_hash ≡ hash

set_password_lem :
    (user_id : ℕ) (hash : Bytes) (us : List User)
    → All (HasPassword user_id hash) (update_where (λ u. u.id == user_id) (set_password hash) us)
set_password_lem user_id hash [] = tt
set_password_lem user_id hash (u ∷ us) = (λ e. ground arith, set_password_lem user_id hash us)

-- What a reset leaves of an account.
pub record Closed (user_id : ℕ) (hash : Bytes) (t : Tables) : Type 0 where
  pub tokens : exists_where (is_live_token_of user_id) t.refresh_tokens ≡ false
  pub hub : exists_where (is_live_hub_of user_id) t.hub_sessions ≡ false
  pub resets_spent : exists_where (is_unspent_of user_id) t.verification_tokens ≡ false
  pub password : All (HasPassword user_id hash) t.users

reset_tables-Closed :
    (r : VerificationRow) (hash : Bytes) (at : ℕ) (t : Tables)
    → Closed r.user_id hash (reset_tables r hash at t)
reset_tables-Closed r hash at t = record {
  tokens =
      exists_where-update_where (is_live_token_of r.user_id) revoke t.refresh_tokens
        (λ q h. ground arith);
  hub =
      exists_where-update_where (is_live_hub_of r.user_id) (revoke_hub at) t.hub_sessions
        (λ q h. ground arith);
  resets_spent =
      exists_where-update_where (is_unspent_of r.user_id) (spend_token at) t.verification_tokens
        (λ q h. ground arith);
  password = set_password_lem r.user_id hash t.users;
}

unlogged-Closed :
    (user_id : ℕ) (hash : Bytes) (t t' : Tables)
    → unlogged t' ≡ unlogged t
    → Closed user_id hash t
    → Closed user_id hash t'
unlogged-Closed user_id hash t t' same c = record {
  tokens =
      ap {B = Bool} (λ (q : Tables). exists_where (is_live_token_of user_id) q.refresh_tokens) same
      ∙ c.tokens;
  hub =
      ap {B = Bool} (λ (q : Tables). exists_where (is_live_hub_of user_id) q.hub_sessions) same
      ∙ c.hub;
  resets_spent =
      ap {B = Bool} (λ (q : Tables). exists_where (is_unspent_of user_id) q.verification_tokens)
        same
      ∙ c.resets_spent;
  password = subst (λ (q : Tables). All (HasPassword user_id hash) q.users) (sym same) c.password;
}

-- When a reset is confirmed with a token that decodes, the token was stored and unused, and of its
-- account no refresh token, no Hub session and no other reset token is left alive, and the password
-- hash is that of the new password.
pub confirm-Closed :
    (s : Service) (token new_password raw : Bytes) (w w' : World) (u : Unit {0})
    → s.ext.decode token ≡ some raw
    → confirm s token new_password w ≡ (ok u, w')
    → (r : VerificationRow) × (hash : Bytes) × (find
          (λ q. bytes_eq q.token_hash (s.ext.sha256 raw))
          w.tables.verification_tokens
        ≡ some r)
      × (is_unspent r ≡ true)
      × (s.ext.hash new_password ≡ some hash)
      × Closed r.user_id hash w'.tables
confirm-Closed s token new_password raw w w' u d h =
    let (hash, made, used) = confirm-ok s token new_password raw w w' u d h in
    let (r, stored, unspent, same) = used in
    let at = w.env.db_clock (suc w.tick) in
    (
      r,
      hash,
      stored,
      unspent,
      made,
      unlogged-Closed r.user_id hash (reset_tables r hash at w.tables) w'.tables same
          (reset_tables-Closed r hash at w.tables),
    )

spent_row :
    (hash : Bytes) (at : ℕ) (before after : List VerificationRow) (r : VerificationRow)
    → find (λ q. bytes_eq q.token_hash hash) before ≡ some r
    → is_unspent r ≡ true
    → after ≡ update_where (is_unspent_of r.user_id) (spend_token at) before
    → find (λ q. bytes_eq q.token_hash hash) after ≡ some (spend_token at r)
spent_row hash at before after r stored unspent e = ground (
  arith,
  find-update_where (λ (q : VerificationRow). bytes_eq q.token_hash hash) (is_unspent_of r.user_id)
      (spend_token at) before r (λ q. refl) stored,
)

unspent_and_spent :
    (rows rows' : List VerificationRow) (hash : Bytes) {c d : VerificationRow}
    → rows ≡ rows'
    → find (λ q. bytes_eq q.token_hash hash) rows ≡ some c
    → find (λ q. bytes_eq q.token_hash hash) rows' ≡ some d
    → is_unspent c ≡ true
    → is_unspent d ≡ false
    → ⊥
unspent_and_spent rows rows' hash same found found' p q = ground arith

-- No token resets twice: after a confirmation with a token that decodes, none with the same token
-- succeeds, whatever the password, as long as the tokens are as the first one left them.
pub confirm_once :
    (s : Service) (token new_password other raw : Bytes) (w w' v v' : World) (u u' : Unit {0})
    → s.ext.decode token ≡ some raw
    → v.tables.verification_tokens ≡ w'.tables.verification_tokens
    → confirm s token new_password w ≡ (ok u, w')
    → confirm s token other v ≢ (ok u', v')
confirm_once s token new_password other raw w w' v v' u u' d kept h h' =
    let (hash, made, used) = confirm-ok s token new_password raw w w' u d h in
    let (r, stored, unspent, same) = used in
    let (hash', made', used') = confirm-ok s token other raw v v' u' d h' in
    let (r', stored', unspent', same') = used' in
    let at = w.env.db_clock (suc w.tick) in
    unspent_and_spent v.tables.verification_tokens w'.tables.verification_tokens (s.ext.sha256 raw)
      kept stored'
      (spent_row (s.ext.sha256 raw) at w.tables.verification_tokens w'.tables.verification_tokens r
        stored unspent (ap {B = List VerificationRow} (λ (t : Tables). t.verification_tokens) same))
      unspent' (ground arith)
