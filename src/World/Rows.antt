-- ===== src/World/Rows.antt =====
-- The rows of the tables that the queries of internal/store/internal/sqlc read and write, and the
-- database as a record of tables. Identifiers, addresses and times are numbers; hashes and texts
-- are bytes. `locked_until = none` is SQL's NULL, and so on.
use identity_hub.Base.{Bool, Bytes, List, Option, false, true, ℕ}

pub data UserStatus : Type 0 where
  pending_verification active locked disabled : UserStatus

abbrev pub status_eq : UserStatus → UserStatus → Bool
status_eq pending_verification pending_verification = true
status_eq active active = true
status_eq locked locked = true
status_eq disabled disabled = true
status_eq _ _ = false

pub record User : Type 0 where
  pub id : ℕ
  pub email : Bytes
  pub password_hash : Bytes
  pub display_name : Bytes
  pub status : UserStatus
  pub locked_until : Option ℕ
  pub last_login_at : Option ℕ
  pub organization_id : ℕ

-- `fresh` is the status 'active' of a refresh token, apart from the user's.
pub data RefreshStatus : Type 0 where
  fresh rotated revoked : RefreshStatus

pub record RefreshRow : Type 0 where
  pub id : ℕ
  pub user_id : ℕ
  pub token_hash : Bytes
  pub family_id : ℕ
  pub parent_id : Option ℕ
  pub status : RefreshStatus
  pub ip : Option ℕ
  pub user_agent : Option Bytes
  pub expires_at : ℕ
  pub created_at : ℕ
  pub last_used_at : Option ℕ

pub record HubSession : Type 0 where
  pub user_id : ℕ
  pub token_hash : Bytes
  pub family_id : Option ℕ
  pub expires_at : ℕ
  pub revoked_at : Option ℕ

pub record ChallengeRow : Type 0 where
  pub id : ℕ
  pub user_id : ℕ
  pub token_hash : Bytes
  pub code_hash : Bytes
  pub expires_at : ℕ
  pub attempts_left : ℕ
  pub created_at : ℕ
  pub last_sent_at : ℕ
  pub used_at : Option ℕ

pub data Purpose : Type 0 where
  email_verification password_reset invitation : Purpose

pub record VerificationRow : Type 0 where
  pub id : ℕ
  pub user_id : ℕ
  pub token_hash : Bytes
  pub purpose : Purpose
  pub expires_at : ℕ
  pub used_at : Option ℕ

pub record Application : Type 0 where
  pub id : ℕ
  pub client_id : Bytes
  pub redirect_uri : Bytes
  pub allowed_origin : Bytes
  pub organization_id : ℕ

pub record CodeRow : Type 0 where
  pub id : ℕ
  pub user_id : ℕ
  pub application_id : ℕ
  pub code_hash : Bytes
  pub redirect_uri : Bytes
  pub code_challenge : Bytes
  pub expires_at : ℕ
  pub used_at : Option ℕ

-- `application_id = none` is a directory role; `is_system` is the column system.
pub record RoleRow : Type 0 where
  pub id : ℕ
  pub name : Bytes
  pub description : Bytes
  pub application_id : Option ℕ
  pub is_system : Bool

pub record UserRole : Type 0 where
  pub user_id : ℕ
  pub role_id : ℕ
  pub granted_by : Option ℕ

pub record Permission : Type 0 where
  pub id : ℕ
  pub key : Bytes
  pub application_id : ℕ

pub record RolePermission : Type 0 where
  pub role_id : ℕ
  pub permission_id : ℕ

pub record ServiceKeyRow : Type 0 where
  pub id : ℕ
  pub public_id : Bytes
  pub secret_hash : Bytes
  pub name : Bytes
  pub scopes : List Bytes
  pub created_by : Option ℕ
  pub created_at : ℕ
  pub expires_at : ℕ
  pub last_used_at : Option ℕ
  pub revoked_at : Option ℕ

-- The literals that the services write as the action of an audit event.
pub data AuditAction : Type 0 where
  login_failed login_succeeded account_locked_action logout_action : AuditAction
  mfa_challenge_issued mfa_code_resent mfa_code_accepted : AuditAction
  mfa_code_rejected mfa_challenge_exhausted : AuditAction
  refresh_reuse_detected session_revoked : AuditAction
  authorization_code_issued authorization_code_exchanged : AuditAction
  authorization_code_reused oauth_authorization_rejected : AuditAction
  role_assignment_rejected user_disabled role_changed : AuditAction
  password_reset_completed invitation_accepted : AuditAction
  service_key_created service_key_revoked service_key_rejected : AuditAction
  role_created role_updated role_deleted : AuditAction
  employee_invited invitation_resent bootstrap_admin_created : AuditAction

-- `reason` is the metadata entry of that name; `resource_id` the number of the resource.
pub record AuditRow : Type 0 where
  pub actor : Option ℕ
  pub action : AuditAction
  pub reason : Option Bytes
  pub resource_id : Option ℕ
  pub ip : Option ℕ
  pub user_agent : Option Bytes
  pub created_at : ℕ

pub record Tables : Type 0 where
  pub users : List User
  pub roles : List RoleRow
  pub user_roles : List UserRole
  pub refresh_tokens : List RefreshRow
  pub hub_sessions : List HubSession
  pub mfa_challenges : List ChallengeRow
  pub verification_tokens : List VerificationRow
  pub applications : List Application
  pub permissions : List Permission
  pub role_permissions : List RolePermission
  pub authorization_codes : List CodeRow
  pub service_keys : List ServiceKeyRow
  pub audit_log : List AuditRow
