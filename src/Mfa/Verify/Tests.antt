-- ===== src/Mfa/Verify/Tests.antt =====
-- mfa.go: a verification of the fixtures, and a wrong code.
use identity_hub.Base.{
  Bytes, [], bytes_eq, codes, false, find, minute, none, refl, some, suc, true, ◌*◌, ◌∷◌, ◌≡◌, ◌≢◌,
}
use identity_hub.World.{ChallengeRow, World, ok, transaction, ◌>>=◌}
use identity_hub.Sql.Mfa.{
  Joined, consume_mfa_challenge, get_mfa_challenge_for_update, is_open, reject_mfa_challenge,
}
use identity_hub.Sql.Users.{list_roles_for_user, update_last_login}
use identity_hub.Sql.Audit.{count_login_failures_by_account, insert_audit_event}
use identity_hub.Sql.Sessions.{create_hub_session, create_refresh_token}
use identity_hub.Mfa.{Service, Session, VerifyInput, decode_verify_input, valid_code}
use identity_hub.Mfa.Verify.{
  check_code, create_hub, create_refresh, finish_verify, issue_session, reject_code, rejected,
  report_lock, verify, verify_challenge,
}
use identity_hub.Mfa.Verify.Wrong.{rejection_spends}
use identity_hub.Mfa.Verify.Once.{Proven, verify-Proven, verify_once}
use identity_hub.Roles.{directory}
use identity_hub.Token
use identity_hub.Lockout
use identity_hub.Fixtures.{env, ext, tables, tokens, world}

abbrev service : Service
service = record {
  ext = ext;
  tokens = tokens;
  refresh_ttl = 60 * minute;
  hub_session_ttl = 60 * minute;
  lockout = Lockout.default;
}

abbrev raw : Bytes
raw = 5 ∷ []

abbrev input : VerifyInput
input = record { token = raw; code = codes "123456"; ip = none; user_agent = none }

abbrev challenge : ChallengeRow
challenge = record {
  id = 30;
  user_id = 1;
  token_hash = 1 ∷ raw;
  code_hash = 5 ∷ codes "123456";
  expires_at = 2000 * minute;
  attempts_left = 5;
  created_at = 0;
  last_sent_at = 0;
  used_at = none;
}

abbrev start : World
start = world (record tables { mfa_challenges = challenge ∷ [] })

abbrev session : Session
session = record {
  access_token = 1 ∷ [];
  refresh_token = 7008 ∷ [];
  hub_session_token = 7010 ∷ [];
  expires_in = 900;
}

abbrev after : World
after = (verify service input start).1

opens : verify service input start ≡ (ok session, after)
unfolding verify ◌>>=◌ transaction decode_verify_input valid_code verify_challenge check_code
    issue_session create_refresh create_hub finish_verify list_roles_for_user directory
    Token.issue_for_session Token.or_fail update_last_login insert_audit_event consume_mfa_challenge
    get_mfa_challenge_for_update create_refresh_token create_hub_session
opens = refl

verify-Proven_example : (j : Joined) × Proven service raw input (env.clock 2) start.tables j
verify-Proven_example = verify-Proven service raw input start after session refl opens

verify_once_example : verify service input after ≢ (ok session, after)
verify_once_example =
    verify_once service input input start after after after session session refl refl opens

abbrev guess : VerifyInput
guess = record { token = raw; code = codes "000000"; ip = none; user_agent = none }

abbrev guessed : World
guessed = (verify_challenge service (1 ∷ raw) (5 ∷ codes "000000") guess start).1

rejects :
    verify_challenge service (1 ∷ raw) (5 ∷ codes "000000") guess start
    ≡ (ok (rejected none), guessed)
unfolding ◌>>=◌ verify_challenge check_code reject_code report_lock insert_audit_event
    reject_mfa_challenge get_mfa_challenge_for_update Lockout.evaluate_account
    count_login_failures_by_account
rejects = refl

rejection_spends_example :
    (c : ChallengeRow) × (d : ChallengeRow) × (find
        (λ q. bytes_eq q.token_hash (1 ∷ raw))
        start.tables.mfa_challenges
      ≡ some c)
    × (find (λ q. bytes_eq q.token_hash (1 ∷ raw)) guessed.tables.mfa_challenges ≡ some d)
    × (is_open c ≡ true)
    × (c.attempts_left ≡ suc d.attempts_left)
    × (d.attempts_left ≡ 0 → is_open d ≡ false)
rejection_spends_example =
    rejection_spends service (1 ∷ raw) (5 ∷ codes "000000") guess start guessed none rejects
