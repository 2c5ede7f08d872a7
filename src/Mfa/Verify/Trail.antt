-- ===== src/Mfa/Verify/Trail.antt =====
-- mfa.go: Verify and the table refresh_tokens.
use identity_hub.Base.{
  Bytes, [], arith, bytes_eq, ltb, none, not, refl, some, ℕ, ◌+◌, ◌-◌, ◌==◌, ◌||◌, ◌≡◌,
}
use identity_hub.World.{
  HubSession, Tables, User, challenge_invalid, code_invalid, statement, unavailable,
}
use identity_hub.Sql.Users.{lock_login_user, update_last_login}
use identity_hub.Sql.Audit.{count_login_failures_by_account}
use identity_hub.Sql.Mfa.{
  Joined, consume_mfa_challenge, get_mfa_challenge_for_update, reject_mfa_challenge,
}
use identity_hub.Sql.Sessions.{create_hub_session}
use identity_hub.Trace.Moves.{
  Keeps-Moves, Moves, audit-Moves, bind-Moves, done-Moves, fail-Moves, if-Moves, list_roles-Moves,
  map_error-Moves, new_uuid-Moves, now-Moves, publish-Moves, pure-Moves, quiet-Moves,
  read_random-Moves, refresh_rows, result-Moves, transaction-Moves, with_id-Moves,
}
use identity_hub.Trace.Statements.{create_refresh_token-Steps}
use identity_hub.Token.Reads.{issue_for_session-Keeps}
use identity_hub.Lockout
use identity_hub.Mfa.{Service, VerifyInput, decode_verify_input, hash_code}
use identity_hub.Mfa.Verify.{
  Outcome, check_code, create_hub, create_refresh, finish_verify, is_verifiable, issue_session,
  proven, reject_code, rejected, report_lock, verify, verify_challenge,
}

create_refresh-Moves :
    (s : Service) (user_id family_id : ℕ) (input : VerifyInput) (at : ℕ)
    → Moves (create_refresh s user_id family_id input at)
unfolding create_refresh
create_refresh-Moves s user_id family_id input at = bind-Moves read_random-Moves λ raw.
    bind-Moves (with_id-Moves _ (create_refresh_token-Steps user_id family_id _)) λ _. pure-Moves _

create_hub_session-tokens :
    (h : HubSession) (at : ℕ) (t : Tables)
    → refresh_rows (create_hub_session h at t).1 ≡ refresh_rows t
unfolding create_hub_session
create_hub_session-tokens h at t = ground arith

create_hub-Moves :
    (s : Service) (user_id family_id at : ℕ) → Moves (create_hub s user_id family_id at)
unfolding create_hub
create_hub-Moves s user_id family_id at = if-Moves (s.hub_session_ttl == 0) (pure-Moves []) (
    bind-Moves read_random-Moves
      λ raw. bind-Moves (quiet-Moves _ (create_hub_session-tokens _)) λ _. pure-Moves _)

consume-Moves : (id : ℕ) → Moves (statement (consume_mfa_challenge id))
unfolding consume_mfa_challenge
consume-Moves id = quiet-Moves (consume_mfa_challenge id) (λ at t. refl)

last_login-Moves : (id : ℕ) → Moves (statement (update_last_login id))
unfolding update_last_login
last_login-Moves id = quiet-Moves (update_last_login id) (λ at t. refl)

issue_session-Moves :
    (s : Service) (j : Joined) (input : VerifyInput) (at : ℕ) → Moves (issue_session s j input at)
unfolding issue_session
issue_session-Moves s j input at = bind-Moves (consume-Moves j.challenge.id) λ _.
    bind-Moves (list_roles-Moves j.account.id) λ names. bind-Moves new_uuid-Moves λ family_id.
      bind-Moves (Keeps-Moves (issue_for_session-Keeps _ _ _ _)) λ access.
        bind-Moves (create_refresh-Moves s j.account.id family_id input at) λ refresh.
          bind-Moves (create_hub-Moves s j.account.id family_id at) λ hub.
            bind-Moves (last_login-Moves j.account.id)
              λ _. bind-Moves (audit-Moves _) λ _. bind-Moves (audit-Moves _) λ _. pure-Moves _

reject_mfa_challenge-tokens :
    (id at : ℕ) (t : Tables) → refresh_rows (reject_mfa_challenge id at t).1 ≡ refresh_rows t
unfolding reject_mfa_challenge
reject_mfa_challenge-tokens id at t = ground arith

evaluate-Moves :
    (c : Lockout.Config) (user_id at : ℕ) → Moves (Lockout.evaluate_account c user_id at)
unfolding Lockout.evaluate_account count_login_failures_by_account lock_login_user
evaluate-Moves c user_id at =
    bind-Moves
      (quiet-Moves (count_login_failures_by_account user_id (at - c.failure_window)) (λ a t. refl))
      λ failures. if-Moves (ltb failures c.account_max_failures) (pure-Moves _) (
        bind-Moves (quiet-Moves (lock_login_user user_id (at + c.lockout_duration)) (λ a t. refl))
          λ _. pure-Moves _)

report-Moves :
    (o : Lockout.Outcome) (u : User) (input : VerifyInput) → Moves (report_lock o u input)
unfolding report_lock
report-Moves Lockout.Outcome.unlocked u input = pure-Moves none
report-Moves (Lockout.Outcome.locked_out until failures) u input =
    bind-Moves (audit-Moves _) λ _. pure-Moves _

reject_code-Moves :
    (s : Service) (j : Joined) (input : VerifyInput) (at : ℕ) → Moves (reject_code s j input at)
unfolding reject_code
reject_code-Moves s j input at =
    bind-Moves
      (quiet-Moves (reject_mfa_challenge j.challenge.id)
        (reject_mfa_challenge-tokens j.challenge.id))
      λ remaining. bind-Moves (audit-Moves _) λ _.
        bind-Moves (if-Moves (remaining == 0) (audit-Moves _) done-Moves) λ _.
          bind-Moves (evaluate-Moves s.lockout j.account.id at) λ o. report-Moves o j.account input

get_challenge-tokens :
    (hash : Bytes) (at : ℕ) (t : Tables)
    → refresh_rows (get_mfa_challenge_for_update hash at t).1 ≡ refresh_rows t
unfolding get_mfa_challenge_for_update
get_challenge-tokens hash at t = ground arith

check_code-Moves :
    (s : Service) (code_hash : Bytes) (input : VerifyInput) (j : Joined) (at : ℕ)
    → Moves (check_code s code_hash input j at)
unfolding check_code
check_code-Moves s code_hash input j at =
    if-Moves (bytes_eq j.challenge.code_hash code_hash)
      (bind-Moves (issue_session-Moves s j input at) λ session. pure-Moves _)
      (bind-Moves (reject_code-Moves s j input at) λ event. pure-Moves _)

verify_challenge-Moves :
    (s : Service) (token_hash code_hash : Bytes) (input : VerifyInput)
    → Moves (verify_challenge s token_hash code_hash input)
unfolding verify_challenge
verify_challenge-Moves s token_hash code_hash input =
    bind-Moves (map_error-Moves _ (quiet-Moves _ (get_challenge-tokens token_hash))) λ j.
      bind-Moves now-Moves λ at.
        if-Moves (is_verifiable j at) (check_code-Moves s code_hash input j at)
          (fail-Moves challenge_invalid)

finish-Moves : (o : Outcome) → Moves (finish_verify o)
unfolding finish_verify
finish-Moves (proven session) = pure-Moves session
finish-Moves (rejected none) = fail-Moves code_invalid
finish-Moves (rejected (some event)) =
    bind-Moves (map_error-Moves _ (publish-Moves event)) λ _. fail-Moves code_invalid

pub verify-Moves : (s : Service) (input : VerifyInput) → Moves (verify s input)
unfolding verify
verify-Moves s input =
    if-Moves (s.refresh_ttl == 0 || not (Lockout.valid s.lockout)) (fail-Moves unavailable) (
      result-Moves (decode_verify_input s.ext input) fail-Moves λ raw.
        bind-Moves
          (transaction-Moves
            (verify_challenge-Moves s (s.ext.sha256 raw) (hash_code s.ext raw input.code) input))
          finish-Moves)
