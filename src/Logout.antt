-- ===== src/Logout.antt =====
-- backend/internal/auth/logout/logout.go: the end of a session and of the Hub sessions of its user.
pub mod Ends
pub mod Trail
mod Tests
use identity_hub.Sql.Audit.{insert_audit_event}
use identity_hub.Sql.Sessions.{revoke_hub_sessions_for_user, revoke_refresh_token}
use identity_hub.World.{
  Action, External, fail, invalid_refresh_token, logout_action, map_error, no_rows_as, statement,
  transaction, ◌>>=◌, ◌>>◌,
}
use identity_hub.Base.{Bytes, Option, codes, if◌then◌else◌, is_empty, none, some, ℕ}

pub record Input : Type 0 where
  pub refresh_token : Bytes
  pub ip : Option ℕ
  pub user_agent : Option Bytes

-- The callback of Logout.
pub revoke_presented : Bytes → Input → Action (Unit {0})
revoke_presented hash input = do
  user_id ← map_error (no_rows_as invalid_refresh_token) (statement (revoke_refresh_token hash))
  statement (revoke_hub_sessions_for_user user_id)
  statement (
      insert_audit_event (record {
        actor = some user_id;
        action = logout_action;
        reason = some (codes "refresh_token_revoked");
        resource_id = none;
        ip = input.ip;
        user_agent = input.user_agent;
      }))

pub logout : External → Input → Action (Unit {0})
logout ext input =
    if is_empty input.refresh_token
    then fail invalid_refresh_token
    else elim (ext.decode input.refresh_token) [
      | none ↦ fail invalid_refresh_token
      | some raw ↦ transaction (revoke_presented (ext.sha256 raw) input)
    ]
