-- ===== src/Login.antt =====
-- backend/internal/auth/login/login.go: the password step, over the writer of
-- backend/internal/store/login.go.
pub mod Sound
mod Tests
use identity_hub.Sql.Audit.{count_login_failures_by_ip, insert_audit_event}
use identity_hub.Sql.Users.{
  get_login_user_by_email, is_active, unlock_login_user, update_password_hash,
}
use identity_hub.World.{
  Action, Error, Event, External, Result, User, Verdict, World, account_locked,
  account_locked_action, account_locked_event, active, bad_hash, differs, done, err, fail,
  invalid_credentials, ip_rate_limited, joined, locked, login_failed, malformed, map_error, matches,
  no_rows, now, ok, publish, pure, statement, status_eq, transaction, unacceptable, unavailable,
  ◌>>=◌, ◌>>◌,
}
use identity_hub.Base.{
  Bool, Bytes, Option, codes, false, if◌then◌else◌, leb, none, not, some, true, ℕ, ◌-◌, ◌||◌,
}
use identity_hub.Lockout
use identity_hub.Mfa
use identity_hub.Mfa.Issue

-- `publisher` may be nil; the repository and the MFA issuer are wired.
pub record Service : Type 0 where
  pub ext : External
  pub lockout : Lockout.Config
  pub publisher : Bool
  pub mfa : Mfa.Service

pub record Input : Type 0 where
  pub email : Bytes
  pub password : Bytes
  pub ip : Option ℕ
  pub user_agent : Option Bytes

-- loginOutcome: an authentication error, with the lock event to publish, or the user to challenge.
pub data Outcome : Type 0 where
  refused : Error → Option Event → Outcome
  verified : User → Outcome

-- recordFailure
pub record_failure : Option ℕ → Input → Action (Unit {0})
record_failure actor input = statement (
    insert_audit_event (record {
      actor = actor;
      action = login_failed;
      reason = some (codes "invalid_credentials");
      resource_id = none;
      ip = input.ip;
      user_agent = input.user_agent;
    }))

-- ipRateLimited
pub ip_rate_limited_now : Service → Input → ℕ → Action Bool
ip_rate_limited_now s input at = elim input.ip [
  | none ↦ pure false
  | some ip ↦ (do
    failures ← statement (count_login_failures_by_ip ip (at - s.lockout.failure_window))
    pure (leb s.lockout.ip_max_failures failures))
]

-- tolerateInvalidPassword: whether the password matches, or an error that aborts.
abbrev pub tolerate : Verdict → Action Bool
tolerate matches = pure true
tolerate differs = pure false
tolerate unacceptable = pure false
tolerate malformed = fail bad_hash

-- rejectUnknownUser, for the error of the lookup.
pub reject_unknown_user : Service → Input → Error → Action Outcome
reject_unknown_user s input no_rows = do
  tolerate (s.ext.verify_decoy input.password)
  record_failure none input
  pure (refused invalid_credentials none)
reject_unknown_user s input e = fail e

-- resolveLock: `none` while the account is locked, and otherwise the user to go on with.
abbrev pub is_past : Option ℕ → ℕ → Bool
is_past none at = false
is_past (some until) at = leb until at

pub resolve_lock : User → ℕ → Action (Option User)
resolve_lock u at =
    if not (status_eq u.status locked)
    then pure (some u)
    else if is_past u.locked_until at
    then statement (unlock_login_user u.id)
      >> pure (some (record u { status = active; locked_until = none }))
    else pure none

-- The end of recordAccountFailure: it audits account_locked.
pub audit_lock : Lockout.Outcome → User → Input → Action (Option Event)
audit_lock Lockout.Outcome.unlocked u input = pure none
audit_lock (Lockout.Outcome.locked_out until failures) u input =
    statement (
      insert_audit_event (record {
        actor = some u.id;
        action = account_locked_action;
        reason = some (codes "invalid_credentials");
        resource_id = none;
        ip = input.ip;
        user_agent = input.user_agent;
      }))
    >> pure (some (account_locked_event u.id until failures))

-- recordAccountFailure, and the event that rejectKnownUser makes of its outcome.
pub record_account_failure : Service → User → Input → ℕ → Action (Option Event)
record_account_failure s u input at = do
  record_failure (some u.id) input
  if not (is_active u)
      then pure none
      else do outcome ← Lockout.evaluate_account s.lockout u.id at; audit_lock outcome u input

-- rejectKnownUser
abbrev pub reject_known_user : Service → User → Input → ℕ → Action Outcome
reject_known_user s u input at = do
  event ← record_account_failure s u input at
  pure (refused invalid_credentials event)

-- rehashIfNeeded
pub rehash_if_needed : Service → User → Bytes → Action (Unit {0})
rehash_if_needed s u plaintext =
    if not (s.ext.needs_rehash u.password_hash) then done else elim (s.ext.hash plaintext) [
      | none ↦ fail bad_hash
      | some updated ↦ statement (update_password_hash u.id updated)
    ]

-- The password check of authenticate, for an account that is not locked.
pub check_password : Service → User → Input → ℕ → Action Outcome
check_password s u input at = do
  valid ← tolerate (s.ext.verify input.password u.password_hash)
  if not valid || not (is_active u)
      then reject_known_user s u input at
      else do rehash_if_needed s u input.password; pure (verified u)

-- The part of authenticate after the lookup of the account.
pub authenticate_known : Service → User → Input → ℕ → Action Outcome
authenticate_known s u input at = do
  unlocked ← resolve_lock u at
  elim unlocked [ none ↦ pure (refused account_locked none) | some v ↦ check_password s v input at ]

abbrev pub after_lookup : Service → Input → ℕ → Result User × World → Result Outcome × World
after_lookup s input at (ok u, w) = authenticate_known s u input at w
after_lookup s input at (err e, w) = reject_unknown_user s input e w

-- authenticate
pub authenticate : Service → Input → ℕ → Action Outcome
authenticate s input at = do
  limited ← ip_rate_limited_now s input at
  if limited then pure (refused ip_rate_limited none) else λ w.
      after_lookup s input at (statement (get_login_user_by_email s.ext.fold input.email) w)

-- publishLockEvent
abbrev pub publish_lock_event : Service → Error → Option Event → Action (Unit {0})
publish_lock_event s e none = done
publish_lock_event s e (some event) =
    if s.publisher then map_error (λ _. joined e) (publish event) else done

-- Login after the commit.
pub finish_login : Service → Outcome → Action Mfa.Issue.Challenge
finish_login s (refused e event) = publish_lock_event s e event >> fail e
finish_login s (verified u) = Mfa.Issue.issue s.mfa u

-- Login. The callback of the transaction reads the clock.
pub login : Service → Input → Action Mfa.Issue.Challenge
login s input =
    if not (Lockout.valid s.lockout)
    then fail unavailable
    else do outcome ← transaction (do at ← now; authenticate s input at); finish_login s outcome
