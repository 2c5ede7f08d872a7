-- ===== src/InvitationResend.antt =====
-- backend/internal/auth/invitationresend/resend.go: a new invitation for an account that is still pending,
-- over the writer of backend/internal/store/invitations.go.
pub mod Single
mod Tests
use identity_hub.Base.{Bytes, Option, if◌then◌else◌, minute, none, some, ℕ, ◌*◌, ◌+◌}
use identity_hub.World.{
  Action, External, User, delivery_unavailable, fail, invitation_resent, invited_event, map_error,
  no_rows_as, not_pending, now, publish, pure, read_random, statement, statement_with_id,
  transaction, user_not_found, ◌>>=◌, ◌>>◌,
}
use identity_hub.Sql.Audit.{insert_audit_event}
use identity_hub.Sql.Reset.{create_invitation_token, invalidate_invitation_tokens, is_pending}
use identity_hub.Sql.Directory.{get_user_by_id_for_update}

-- The repository, the publisher, the random source and the clock are there.
pub record Service : Type 0 where
  pub ext : External

pub record Input : Type 0 where
  pub actor_user_id : ℕ
  pub user_id : ℕ
  pub ip : Option ℕ
  pub user_agent : Option Bytes

-- invitationTTL
abbrev pub invitation_ttl : ℕ
invitation_ttl = 1440 * minute

-- loadPendingUser
pub load_pending_user : ℕ → Action User
load_pending_user user_id = do
  u ← map_error (no_rows_as user_not_found) (statement (get_user_by_id_for_update user_id))
  if is_pending u then pure u else fail not_pending

-- What replaceToken returns.
pub record Fresh : Type 0 where
  pub raw : Bytes
  pub expires_at : ℕ

-- replaceToken
pub replace_token : Service → ℕ → Action Fresh
replace_token s user_id = do
  statement (invalidate_invitation_tokens user_id)
  raw ← read_random
  at ← now
  statement_with_id (create_invitation_token user_id (s.ext.sha256 raw) (at + invitation_ttl))
  pure (record { raw = raw; expires_at = at + invitation_ttl })

-- auditAndPublish: the publication comes before the commit.
pub audit_and_publish : Service → Input → User → Fresh → Action (Unit {0})
audit_and_publish s input u f = do
  statement (
      insert_audit_event (record {
        actor = some input.actor_user_id;
        action = invitation_resent;
        reason = none;
        resource_id = some u.id;
        ip = input.ip;
        user_agent = input.user_agent;
      }))
  map_error (λ _. delivery_unavailable)
      (publish (invited_event u.id u.email u.display_name (s.ext.encode f.raw) f.expires_at))

-- The callback of Resend.
pub resend_within : Service → Input → Action (Unit {0})
resend_within s input = do
  u ← load_pending_user input.user_id
  f ← replace_token s u.id
  audit_and_publish s input u f

-- Resend
pub resend : Service → Input → Action (Unit {0})
resend s input = transaction (resend_within s input)
