-- ===== src/Login/Tests.antt =====
-- login.go: a login of the fixtures.
use identity_hub.Base.{[], codes, minute, none, refl, some, true, ◌*◌, ◌∷◌, ◌≡◌}
use identity_hub.World.{User, World, ok, transaction, ◌>>=◌}
use identity_hub.Sql.Users.{get_login_user_by_email}
use identity_hub.Sql.Audit.{count_login_failures_by_ip, insert_audit_event}
use identity_hub.Sql.Mfa.{
  count_mfa_challenges_since, create_mfa_challenge, lock_mfa_challenge_issuance,
  supersede_open_mfa_challenges,
}
use identity_hub.Login.{
  Input, Service, authenticate, authenticate_known, check_password, finish_login,
  ip_rate_limited_now, login, rehash_if_needed, resolve_lock,
}
use identity_hub.Login.Sound.{Admitted, login-Admitted}
use identity_hub.Lockout
use identity_hub.Mfa
use identity_hub.Mfa.Issue
use identity_hub.Fixtures.{env, ext, tables, tokens, world}

abbrev service : Service
service = record {
  ext = ext;
  lockout = Lockout.default;
  publisher = true;
  mfa = record {
    ext = ext;
    tokens = tokens;
    refresh_ttl = 60 * minute;
    hub_session_ttl = 60 * minute;
    lockout = Lockout.default;
  };
}

abbrev input : Input
input = record {
  email = codes "ana@example.test";
  password = codes "correct horse";
  ip = some 7;
  user_agent = none;
}

abbrev start : World
start = world tables

abbrev challenge : Mfa.Issue.Challenge
challenge = record { token = 7005 ∷ []; expires_in = 300 }

abbrev after : World
after = (login service input start).1

logs_in : login service input start ≡ (ok challenge, after)
unfolding login ◌>>=◌ transaction authenticate ip_rate_limited_now authenticate_known resolve_lock
    check_password rehash_if_needed finish_login count_login_failures_by_ip get_login_user_by_email
    Mfa.Issue.issue Mfa.Issue.store_challenge lock_mfa_challenge_issuance count_mfa_challenges_since
    supersede_open_mfa_challenges create_mfa_challenge insert_audit_event
logs_in = refl

login-Admitted_example : (u : User) × Admitted service input (env.clock 1) start.tables u
login-Admitted_example = login-Admitted service input start after challenge logs_in
