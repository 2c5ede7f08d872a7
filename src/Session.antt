-- ===== src/Session.antt =====
-- backend/internal/auth/session/session.go: revoking one of the user's own sessions.
pub mod Own
pub mod Trail
mod Tests
use identity_hub.Sql.Audit.{insert_audit_event}
use identity_hub.Sql.Sessions.{revoke_active_refresh_session}
use identity_hub.World.{
  Action, fail, session_not_found, session_revoked, statement, transaction, ◌>>=◌,
}
use identity_hub.Base.{if◌then◌else◌, none, some, ℕ}

-- Revoke; a family that is not the user's, or not active, is not found.
pub revoke_session : ℕ → ℕ → Action (Unit {0})
revoke_session user_id family_id = transaction (do
  hit ← statement (revoke_active_refresh_session user_id family_id)
  if hit
      then statement (
          insert_audit_event (record {
            actor = some user_id;
            action = session_revoked;
            reason = none;
            resource_id = some family_id;
            ip = none;
            user_agent = none;
          }))
      else fail session_not_found)
