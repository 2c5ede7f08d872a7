-- ===== src/Lockout.antt =====
-- backend/internal/auth/lockout/lockout.go: the lockout policy that the password and the MFA step
-- share. A limit or a duration that is negative in Go is refused by `valid` just as 0 is, so they are
-- naturals here. `now - window` stops at 0, the start of the model's time, before which nothing was
-- recorded.
use identity_hub.Sql.Audit.{count_login_failures_by_account}
use identity_hub.Sql.Users.{lock_login_user}
use identity_hub.World.{Action, pure, statement, ◌>>=◌, ◌>>◌}
use identity_hub.Base.{Bool, if◌then◌else◌, ltb, minute, ℕ, ◌&&◌, ◌*◌, ◌+◌, ◌-◌}

pub record Config : Type 0 where
  pub account_max_failures : ℕ
  pub ip_max_failures : ℕ
  pub failure_window : ℕ
  pub lockout_duration : ℕ

-- Default
abbrev pub default : Config
default = record {
  account_max_failures = 5;
  ip_max_failures = 20;
  failure_window = 15 * minute;
  lockout_duration = 15 * minute;
}

abbrev pub valid : Config → Bool
valid c =
    ltb 0 c.account_max_failures
    && ltb 0 c.ip_max_failures
    && ltb 0 c.failure_window
    && ltb 0 c.lockout_duration

-- Outcome, whose zero value is `unlocked`.
pub data Outcome : Type 0 where
  unlocked : Outcome
  locked_out : ℕ → ℕ → Outcome

-- EvaluateAccount: the time until which the account is locked and the failures counted.
unfoldable pub evaluate_account : Config → ℕ → ℕ → Action Outcome
evaluate_account c user_id at = do
  failures ← statement (count_login_failures_by_account user_id (at - c.failure_window))
  if ltb failures c.account_max_failures
      then pure unlocked
      else statement (lock_login_user user_id (at + c.lockout_duration))
        >> pure (locked_out (at + c.lockout_duration) failures)
