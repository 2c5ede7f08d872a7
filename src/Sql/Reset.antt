-- ===== src/Sql/Reset.antt =====
-- users.sql.go: tokens that reset a password or accept an invitation.
use identity_hub.Base.{
  Bool, Bytes, Option, bytes_eq, exists_where, false, find, if◌then◌else◌, is_some, ltb, none, not,
  some, true, update_where, ℕ, ◌&&◌, ◌==◌, ◌||◌, ◌∷◌,
}
use identity_hub.World.{
  HubSession, Purpose, Query, RefreshRow, Result, Tables, User, VerificationRow, active, err,
  invitation, locked, no_rows, ok, password_reset, pending_verification, status_eq, storage,
}
use identity_hub.Sql.Sessions.{is_revoked, revoke, revoke_hub}

abbrev pub is_password_reset : Purpose → Bool
is_password_reset password_reset = true
is_password_reset _ = false

abbrev pub invites_account : Purpose → Bool
invites_account invitation = true
invites_account _ = false

abbrev pub is_unspent : VerificationRow → Bool
is_unspent r = is_password_reset r.purpose && not (is_some r.used_at)

abbrev pub resets : Bytes → ℕ → VerificationRow → Bool
resets hash at r = bytes_eq r.token_hash hash && is_unspent r && ltb at r.expires_at

-- PasswordResetTokenIsUsable
unfoldable pub password_reset_token_is_usable : Bytes → Query Bool
password_reset_token_is_usable hash at t =
    (ok (exists_where (resets hash at) t.verification_tokens), t)

abbrev pub reset_row : ℕ → Bytes → ℕ → User → VerificationRow
reset_row id hash expires_at u = record {
  id = id;
  user_id = u.id;
  token_hash = hash;
  purpose = password_reset;
  expires_at = expires_at;
  used_at = none;
}

-- CreatePasswordResetTokenForEmail; token_hash is unique.
unfoldable pub create_password_reset_token : (Bytes → Bytes) → Bytes → Bytes → ℕ → ℕ → Query Bool
create_password_reset_token fold email hash expires_at id at t =
    elim (find (λ u. bytes_eq (fold u.email) (fold email)) t.users) [
      | none ↦ (ok false, t)
      | some u ↦
          if exists_where (λ r. bytes_eq r.token_hash hash) t.verification_tokens
          then (err storage, t)
          else (
            ok true,
            record t {
              verification_tokens = reset_row id hash expires_at u ∷ t.verification_tokens;
            },
          )
    ]

pub record ResetUser : Type 0 where
  pub account : User
  pub unlocked_now : Bool

abbrev pub is_unspent_of : ℕ → VerificationRow → Bool
is_unspent_of user_id r = r.user_id == user_id && is_unspent r

abbrev pub spend_token : ℕ → VerificationRow → VerificationRow
spend_token at r = record r { used_at = some at }

abbrev pub is_locked : User → Bool
is_locked u = status_eq u.status locked

-- The CTE `updated_user`.
abbrev pub set_password : Bytes → User → User
set_password hash u = record u {
  password_hash = hash;
  status = if is_locked u then active else u.status;
  locked_until = if is_locked u then none else u.locked_until;
}

abbrev pub is_live_token_of : ℕ → RefreshRow → Bool
is_live_token_of user_id r = r.user_id == user_id && not (is_revoked r.status)

abbrev pub is_live_hub_of : ℕ → HubSession → Bool
is_live_hub_of user_id h = h.user_id == user_id && not (is_some h.revoked_at)

-- The statement's effect for the row of the CTE `consumed`. The CTEs `consumed` and
-- `invalidated_reset_tokens` give the same used_at to all unused reset tokens of the user.
abbrev pub reset_tables : VerificationRow → Bytes → ℕ → Tables → Tables
reset_tables r hash at t = record t {
  verification_tokens =
      update_where (is_unspent_of r.user_id) (spend_token at) t.verification_tokens;
  users = update_where (λ u. u.id == r.user_id) (set_password hash) t.users;
  refresh_tokens = update_where (is_live_token_of r.user_id) revoke t.refresh_tokens;
  hub_sessions = update_where (is_live_hub_of r.user_id) (revoke_hub at) t.hub_sessions;
}

abbrev pub reset_account :
    VerificationRow → Bytes → ℕ → Tables → Option User → Result ResetUser × Tables
reset_account r hash at t none = (err no_rows, t)
reset_account r hash at t (some u) = (
  ok (record { account = set_password hash u; unlocked_now = is_locked u }),
  reset_tables r hash at t,
)

-- ConsumePasswordResetTokenAndRevokeSessions; token_hash is unique, so that the row is found by it
-- first, and user_id is a foreign key, so that the account is there.
unfoldable pub consume_password_reset_token : Bytes → Bytes → Query ResetUser
consume_password_reset_token token_hash hash at t =
    elim (find (λ r. bytes_eq r.token_hash token_hash) t.verification_tokens) [
      | none ↦ (err no_rows, t)
      | some r ↦
          if is_unspent r && ltb at r.expires_at
          then reset_account r hash at t (find (λ u. u.id == r.user_id) t.users)
          else (err no_rows, t)
    ]

-- A pending invitation, for ConsumeInvitationToken and InvitationTokenIsUsable.
abbrev pub is_invitation : VerificationRow → Bool
is_invitation r = invites_account r.purpose && not (is_some r.used_at)

abbrev pub invites : Bytes → ℕ → VerificationRow → Bool
invites hash at r = bytes_eq r.token_hash hash && is_invitation r && ltb at r.expires_at

-- InvitationTokenIsUsable
unfoldable pub invitation_token_is_usable : Bytes → Query Bool
invitation_token_is_usable hash at t =
    (ok (exists_where (invites hash at) t.verification_tokens), t)

abbrev pub is_pending : User → Bool
is_pending u = status_eq u.status pending_verification

abbrev pub activate : Bytes → User → User
activate hash u = record u { password_hash = hash; status = active }

abbrev pub invited : ℕ → User → Bool
invited user_id u = u.id == user_id && is_pending u

-- The UPDATE of users after the CTE `consumed`; without a row the transaction is rolled back.
abbrev pub activate_account : ℕ → Bytes → Tables → Option User → Result User × Tables
activate_account user_id hash t none = (err no_rows, t)
activate_account user_id hash t (some u) = (
  ok (activate hash u),
  record t { users = update_where (invited user_id) (activate hash) t.users },
)

-- ConsumeInvitationToken; token_hash is unique, so that the row is found by it first.
unfoldable pub consume_invitation_token : Bytes → Bytes → Query User
consume_invitation_token token_hash hash at t =
    elim (find (λ r. bytes_eq r.token_hash token_hash) t.verification_tokens) [
      | none ↦ (err no_rows, t)
      | some r ↦
          if is_invitation r && ltb at r.expires_at
          then activate_account r.user_id hash
              (record t {
                verification_tokens =
                    update_where (invites token_hash at) (spend_token at) t.verification_tokens;
              })
              (find (invited r.user_id) t.users)
          else (err no_rows, t)
    ]

abbrev pub is_open_invitation : ℕ → VerificationRow → Bool
is_open_invitation user_id r = r.user_id == user_id && is_invitation r

-- InvalidateInvitationTokens
unfoldable pub invalidate_invitation_tokens : ℕ → Query (Unit {0})
invalidate_invitation_tokens user_id at t = (
  ok tt,
  record t {
    verification_tokens =
        update_where (is_open_invitation user_id) (spend_token at) t.verification_tokens;
  },
)

abbrev pub invitation_row : ℕ → Bytes → ℕ → ℕ → VerificationRow
invitation_row user_id hash expires_at id = record {
  id = id;
  user_id = user_id;
  token_hash = hash;
  purpose = invitation;
  expires_at = expires_at;
  used_at = none;
}

-- CreateInvitationToken; token_hash is unique and user_id a foreign key.
unfoldable pub create_invitation_token : ℕ → Bytes → ℕ → ℕ → Query (Unit {0})
create_invitation_token user_id hash expires_at id at t =
    if exists_where (λ r. bytes_eq r.token_hash hash) t.verification_tokens
      || not (exists_where (λ u. u.id == user_id) t.users)
    then (err storage, t)
    else (
      ok tt,
      record t {
        verification_tokens = invitation_row user_id hash expires_at id ∷ t.verification_tokens;
      },
    )
