-- ===== src/Mfa/Verify.antt =====
-- mfa.go, Verify: from the token and the code to a session.
pub mod Frame
pub mod Once
pub mod Wrong
pub mod Trail
mod Tests
use identity_hub.Sql.Mfa.{Joined, consume_mfa_challenge, is_open, reject_mfa_challenge}
use identity_hub.Sql.Users.{is_active, list_roles_for_user, update_last_login}
use identity_hub.Sql.Sessions.{create_hub_session, create_refresh_token}
use identity_hub.World.{
  Action, Event, User, account_locked_action, account_locked_event, challenge_invalid, code_invalid,
  done, err, fail, joined, login_succeeded, map_error, mfa_challenge_exhausted, mfa_code_accepted,
  mfa_code_rejected, new_uuid, now, ok, publish, pure, read_random, statement, statement_with_id,
  transaction, unavailable, ◌>>=◌, ◌>>◌,
}
use identity_hub.Base.{
  Bool, Bytes, Option, [], bytes_eq, codes, if◌then◌else◌, ltb, none, not, some, ℕ, ◌&&◌, ◌+◌, ◌==◌,
  ◌||◌,
}
use identity_hub.Mfa.{
  Service, Session, VerifyInput, audit, decode_verify_input, get_challenge, hash_code,
}
use identity_hub.Token
use identity_hub.Lockout
use identity_hub.Roles.{directory}

-- verifyOutcome: the session, or a rejection that commits, with the lock event to publish.
pub data Outcome : Type 0 where
  proven : Session → Outcome
  rejected : Option Event → Outcome

-- createRefreshToken
pub create_refresh : Service → ℕ → ℕ → VerifyInput → ℕ → Action Bytes
create_refresh s user_id family_id input at = do
  raw ← read_random
  statement_with_id (
      create_refresh_token user_id family_id (record {
        token_hash = s.ext.sha256 raw;
        ip = input.ip;
        user_agent = input.user_agent;
        expires_at = at + s.refresh_ttl;
      }))
  pure (s.ext.encode raw)

-- createHubSession: disabled when its lifetime is 0.
pub create_hub : Service → ℕ → ℕ → ℕ → Action Bytes
create_hub s user_id family_id at = if s.hub_session_ttl == 0 then pure [] else do
  raw ← read_random
  statement (
      create_hub_session (record {
        user_id = user_id;
        token_hash = s.ext.sha256 raw;
        family_id = some family_id;
        expires_at = at + s.hub_session_ttl;
        revoked_at = none;
      }))
  pure (s.ext.encode raw)

-- issueSession
pub issue_session : Service → Joined → VerifyInput → ℕ → Action Session
issue_session s j input at = do
  statement (consume_mfa_challenge j.challenge.id)
  user_roles ← statement (list_roles_for_user j.account.id)
  family_id ← new_uuid
  access ←
      Token.issue_for_session s.tokens (s.ext.uuid_string j.account.id) (directory user_roles)
        (s.ext.uuid_string family_id)
  refresh ← create_refresh s j.account.id family_id input at
  hub ← create_hub s j.account.id family_id at
  statement (update_last_login j.account.id)
  audit j.account.id mfa_code_accepted none input.ip input.user_agent
  audit j.account.id login_succeeded none input.ip input.user_agent
  pure (record {
    access_token = access;
    refresh_token = refresh;
    hub_session_token = hub;
    expires_in = Token.access_token_expires_in;
  })

-- The end of rejectCode: the lock event, after auditing account_locked.
pub report_lock : Lockout.Outcome → User → VerifyInput → Action (Option Event)
report_lock Lockout.Outcome.unlocked u input = pure none
report_lock (Lockout.Outcome.locked_out until failures) u input =
    audit u.id account_locked_action (some (codes "mfa_code_rejected")) input.ip input.user_agent
    >> pure (some (account_locked_event u.id until failures))

-- rejectCode: one attempt less, the audit, and the lockout policy.
pub reject_code : Service → Joined → VerifyInput → ℕ → Action (Option Event)
reject_code s j input at = do
  remaining ← statement (reject_mfa_challenge j.challenge.id)
  audit j.account.id mfa_code_rejected none input.ip input.user_agent
  if remaining == 0
      then audit j.account.id mfa_challenge_exhausted none input.ip input.user_agent
      else done
  outcome ← Lockout.evaluate_account s.lockout j.account.id at
  report_lock outcome j.account input

-- The checks of verifyChallenge on the stored challenge.
abbrev pub is_verifiable : Joined → ℕ → Bool
is_verifiable j at =
    is_open j.challenge
    && ltb at j.challenge.expires_at
    && ltb 0 j.challenge.attempts_left
    && is_active j.account

-- The comparison of the code's hash in verifyChallenge.
pub check_code : Service → Bytes → VerifyInput → Joined → ℕ → Action Outcome
check_code s code_hash input j at =
    if bytes_eq j.challenge.code_hash code_hash
    then (do session ← issue_session s j input at; pure (proven session))
    else (do event ← reject_code s j input at; pure (rejected event))

-- verifyChallenge
pub verify_challenge : Service → Bytes → Bytes → VerifyInput → Action Outcome
verify_challenge s token_hash code_hash input = do
  j ← get_challenge token_hash
  at ← now
  if is_verifiable j at then check_code s code_hash input j at else fail challenge_invalid

-- finishVerify
pub finish_verify : Outcome → Action Session
finish_verify (proven session) = pure session
finish_verify (rejected none) = fail code_invalid
finish_verify (rejected (some event)) =
    map_error (λ _. joined code_invalid) (publish event) >> fail code_invalid

abbrev pub verify_decoded : Service → Bytes → VerifyInput → Action Session
verify_decoded s raw input = do
  outcome ←
      transaction (verify_challenge s (s.ext.sha256 raw) (hash_code s.ext raw input.code) input)
  finish_verify outcome

-- Verify
pub verify : Service → VerifyInput → Action Session
verify s input =
    if s.refresh_ttl == 0 || not (Lockout.valid s.lockout)
    then fail unavailable
    else elim (decode_verify_input s.ext input) [
      | err e ↦ fail e
      | ok raw ↦ verify_decoded s raw input
    ]
