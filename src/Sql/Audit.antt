-- ===== src/Sql/Audit.antt =====
-- audit.sql.go: the log and the counts over it that the lockout policy reads.
use identity_hub.Base.{
  Bool, Bytes, List, Option, [], count_where, eq_some, false, if◌then◌else◌, leb, ltb, none, some,
  true, ℕ, ◌&&◌, ◌∷◌,
}
use identity_hub.World.{
  AuditAction, AuditRow, Query, login_failed, mfa_code_rejected, ok, password_reset_completed,
}

-- What a service hands to InsertAuditEvent.
pub record AuditEvent : Type 0 where
  pub actor : Option ℕ
  pub action : AuditAction
  pub reason : Option Bytes
  pub resource_id : Option ℕ
  pub ip : Option ℕ
  pub user_agent : Option Bytes

-- The row has the statement's now() as created_at. Newest first.
unfoldable pub insert_audit_event : AuditEvent → Query (Unit {0})
insert_audit_event e at t = (
  ok tt,
  record t {
    audit_log =
        record {
          actor = e.actor;
          action = e.action;
          reason = e.reason;
          resource_id = e.resource_id;
          ip = e.ip;
          user_agent = e.user_agent;
          created_at = at;
        }
        ∷ t.audit_log;
  },
)

-- action IN ('login_failed', 'mfa_code_rejected')
abbrev pub is_failure : AuditAction → Bool
is_failure login_failed = true
is_failure mfa_code_rejected = true
is_failure _ = false

abbrev pub is_reset : AuditAction → Bool
is_reset password_reset_completed = true
is_reset _ = false

-- max(created_at) over the account's completed resets; `none` is '-infinity'.
abbrev pub latest : Option ℕ → ℕ → Option ℕ
latest none b = some b
latest (some a) b = if ltb a b then some b else some a

unfoldable pub last_reset : ℕ → List AuditRow → Option ℕ
last_reset user_id [] = none
last_reset user_id (r ∷ rs) =
    let rest = last_reset user_id rs in
    if eq_some r.actor user_id && is_reset r.action then latest rest r.created_at else rest

abbrev pub is_after : Option ℕ → ℕ → Bool
is_after none at = true
is_after (some reset) at = ltb reset at

abbrev pub counts_for_account : ℕ → ℕ → List AuditRow → AuditRow → Bool
counts_for_account user_id since log r =
    eq_some r.actor user_id
    && is_failure r.action
    && leb since r.created_at
    && is_after (last_reset user_id log) r.created_at

-- CountLoginFailuresByAccount
unfoldable pub count_login_failures_by_account : ℕ → ℕ → Query ℕ
count_login_failures_by_account user_id since at t =
    (ok (count_where (counts_for_account user_id since t.audit_log) t.audit_log), t)

abbrev pub counts_for_ip : ℕ → ℕ → AuditRow → Bool
counts_for_ip ip since r = eq_some r.ip ip && is_failure r.action && leb since r.created_at

-- CountLoginFailuresByIP
unfoldable pub count_login_failures_by_ip : ℕ → ℕ → Query ℕ
count_login_failures_by_ip ip since at t =
    (ok (count_where (counts_for_ip ip since) t.audit_log), t)
