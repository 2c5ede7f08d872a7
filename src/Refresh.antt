-- ===== src/Refresh.antt =====
-- backend/internal/auth/refresh/refresh.go: the rotation of refresh tokens, over the
-- writer of backend/internal/store/refresh.go.
pub mod Reuse
pub mod Once
pub mod Works
pub mod Trail
pub mod Sample
mod Tests
use identity_hub.Base.{
  Bool, Bytes, Option, codes, if◌then◌else◌, is_empty, none, some, ℕ, ◌+◌, ◌==◌, ◌||◌,
}
use identity_hub.World.{
  Action, Event, External, fail, fresh, invalid_refresh_token, joined, map_error, no_rows_as, now,
  publish, pure, read_random, refresh_reuse, refresh_reuse_detected, refresh_reuse_event, revoked,
  rotated, statement, statement_with_id, transaction, ◌>>=◌, ◌>>◌,
}
use identity_hub.Sql.Users.{list_roles_for_user}
use identity_hub.Sql.Audit.{insert_audit_event}
use identity_hub.Sql.Sessions.{Rotated, revoke_refresh_family, rotate_refresh_token}
use identity_hub.Token
use identity_hub.Roles.{directory}

-- `publisher` and `tokens` may be nil; the repository is always there.
pub record Service : Type 0 where
  pub ext : External
  pub tokens : Option Token.Service
  pub publisher : Bool
  pub refresh_ttl : ℕ

pub record Input : Type 0 where
  pub refresh_token : Bytes
  pub ip : Option ℕ
  pub user_agent : Option Bytes

-- Result; TokenType is always "Bearer".
pub record Session : Type 0 where
  pub access_token : Bytes
  pub refresh_token : Bytes
  pub expires_in : ℕ

pub data RotationStatus : Type 0 where
  succeeded invalid reused : RotationStatus

pub record Rotation : Type 0 where
  pub status : RotationStatus
  pub user_id : ℕ
  pub family_id : ℕ
  pub parent_id : ℕ

-- refreshOutcome
pub data Outcome : Type 0 where
  issued : Session → Outcome
  reuse : Event → Outcome

-- refreshWriter.RotateRefreshToken: the status of the rotation from the row.
abbrev pub rotation_status : Rotated → RotationStatus
rotation_status row =
    if row.rotated_now
    then succeeded
    else elim row.status [ rotated ↦ reused | fresh ↦ invalid | revoked ↦ invalid ]

abbrev pub rotation : Rotated → Rotation
rotation row = record {
  status = rotation_status row;
  user_id = row.user_id;
  family_id = row.family_id;
  parent_id = row.parent_id;
}

-- hashRefreshToken: the hash of the decoded cookie.
abbrev pub hash_refresh_token : External → Bytes → Action Bytes
hash_refresh_token ext raw = elim (ext.decode raw) [
  | none ↦ fail invalid_refresh_token
  | some bytes ↦ pure (ext.sha256 bytes)
]

pub issue_rotated_session : Service → Token.Service → Rotation → Bytes → Action Outcome
issue_rotated_session s tokens r raw = do
  user_roles ← statement (list_roles_for_user r.user_id)
  access ←
      Token.issue_for_session tokens (s.ext.uuid_string r.user_id) (directory user_roles)
        (s.ext.uuid_string r.family_id)
  pure (
      issued (record {
        access_token = access;
        refresh_token = s.ext.encode raw;
        expires_in = Token.access_token_expires_in;
      }))

pub handle_reuse : Rotation → Input → Action Outcome
handle_reuse r input = do
  count ← statement (revoke_refresh_family r.family_id)
  statement (
      insert_audit_event (record {
        actor = some r.user_id;
        action = refresh_reuse_detected;
        reason = some (codes "rotated_token_presented");
        resource_id = none;
        ip = input.ip;
        user_agent = input.user_agent;
      }))
  pure (reuse (refresh_reuse_event r.user_id r.family_id count))

abbrev pub dispatch : Service → Token.Service → Rotation → Input → Bytes → Action Outcome
dispatch s tokens r input raw = elim r.status [
  | succeeded ↦ issue_rotated_session s tokens r raw
  | reused ↦ handle_reuse r input
  | invalid ↦ fail invalid_refresh_token
]

pub rotate_within_transaction : Service → Token.Service → Input → Bytes → Bytes → Action Outcome
rotate_within_transaction s tokens input raw next_hash = do
  presented ← hash_refresh_token s.ext input.refresh_token
  at ← now
  row ← map_error (no_rows_as invalid_refresh_token) (
      statement_with_id (
        rotate_refresh_token presented (record {
          token_hash = next_hash;
          ip = input.ip;
          user_agent = input.user_agent;
          expires_at = at + s.refresh_ttl;
        })))
  dispatch s tokens (rotation row) input raw

-- finishAfterCommit
pub finish_after_commit : Service → Outcome → Action Session
finish_after_commit s (issued session) = pure session
finish_after_commit s (reuse event) =
    if s.publisher
    then map_error (λ _. joined refresh_reuse) (publish event) >> fail refresh_reuse
    else fail refresh_reuse

abbrev pub refresh_with : Service → Token.Service → Input → Action Session
refresh_with s tokens input = do
  raw ← read_random
  outcome ← transaction (rotate_within_transaction s tokens input raw (s.ext.sha256 raw))
  finish_after_commit s outcome

pub refresh : Service → Input → Action Session
refresh s input = elim s.tokens [
  | none ↦ fail invalid_refresh_token
  | some tokens ↦
      if s.refresh_ttl == 0 || is_empty input.refresh_token
      then fail invalid_refresh_token
      else refresh_with s tokens input
]
